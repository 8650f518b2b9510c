-- ===== src/Lib.antt =====
-- Verification of open-pdf-editor: the page model, the commands with their undo history, page
-- selections, the command line, the render contract, the render worker with its cache and queue, the
-- cache of the viewer, and the PDF document.
--
-- How the program is put together. A document (opdf-core) is an ordered list of pages under stable
-- identities, behind the trait `Document`. A command (opdf-core, opdf-ops) changes a document and
-- returns its inverse; `UndoStack` keeps the inverses. Commands are built from others: a `Sequence`
-- rolls back what it has done when one of its commands fails, a `BoundInverse` refuses every
-- document but its own. Extraction and splitting move pages between two documents. The command line
-- (opdf-cli) scans its arguments, reads selections such as `1-3,7` and runs merge, split, rotate and
-- extract over files. The viewer asks for tiles by `RenderRequest`; the render worker (opdf-render)
-- resolves a request against the snapshot that it holds, rasterizes with pdfium, caches tiles and
-- keeps its pending requests in a bounded queue, and the viewer (opdf-app) keeps what it was answered
-- in caches of its own: each frame files the responses that arrived, plans the requests that the
-- visible pages want, and submits them. PdfDocument (opdf-pdf) is the document behind a file; its
-- page map holds the page order, and the command line runs on it.
--
-- Which file models what:
--   Error, Page, Document        opdf-core/src/{error,page,document}.rs
--   VecDocument                  opdf-core/src/fakes/vec_document.rs, the reference document
--   Command, Command/Composite   opdf-core/src/command.rs and opdf-ops/src/{set_rotation,move_page,
--                                remove_page,insert_blank_page,import_pages,merge,sequence,binding,
--                                delete_selection,rotate_selection}.rs
--   Undo                         what those commands promise over the reference document
--   UndoStack                    opdf-ops/src/undo_stack.rs
--   Transfer                     opdf-ops/src/{extract,split}.rs
--   PageSelection                opdf-cli/src/range.rs
--   Cli, Cli/Values, Cli/Line, Cli/Arguments
--                                opdf-cli/src/{error,args}.rs
--   Cli/RoundTrip, Cli/Scanning, Cli/Validity
--                                what the argument parser promises
--   Cli/Paths                    the comparison of paths that run_split makes
--   Cli/Running                  opdf-cli/src/{run,main}.rs, over any document and any disk;
--                                what it writes, over PdfDocument
--   Render                       opdf-core/src/render.rs
--   RenderCache                  opdf-render/src/{cache,backlog}.rs
--   Geometry, Raster             opdf-render/src/{geometry,raster}.rs, over pdfium as a parameter
--   Worker, Worker/Loop          opdf-render/src/worker.rs
--   FrameCache                   opdf-app/src/tiles/cache.rs
--   Scheduler, Textures          opdf-app/src/scheduler.rs and opdf-app/src/tiles/texture.rs
--   Viewer                       opdf-app/src/viewer.rs, its frame against the render service
--   PageMap                      opdf-pdf/src/page_map.rs
--   PdfDocument                  opdf-pdf/src/document.rs, over the file's objects as a parameter
--   Base, Tests                  shared names and lemmas; concrete runs
--
-- How state and operations correspond. A struct is a record with the fields of the source, an
-- operation a function with the source's name. Code that takes `&mut` and may fail returns an
-- `Outcome`, which holds the state also where it fails; code that only reads returns a `Result`.
-- The trait `Document` is a record of its operations, and `Command<D>` a record over a type of
-- commands, so that what is written over a trait in the source is written over any implementation
-- here. A `Box<dyn Command<D>>` is a value of `Boxed D n`: the commands of the crate nested at most
-- `n` deep, for every `n`. What a `PdfDocument` shows, its pages without the objects behind them,
-- is a `VecDocument`, and it is valid where its identities are distinct and below the next one.
-- `Vec`s used as stacks are lists with the top first; a `HashMap` is an association list.
--
-- Bounds and fuel. A page identity and a page count are natural numbers: the end of `u64` is never
-- reached by a counter that starts at 0. The revision wraps at 2^64. Page numbers are parsed with
-- the overflow test of `usize` at 64 bits, and a tile's buffer length with its checked products. An
-- `f32` is its bit pattern. The loop of `TileCache::insert` runs on the length of the recency list
-- as fuel: each turn takes one request from that list. So does the loop by which a rebind drains the
-- backlog, on the backlog's length. The worker's loop is run on the turns that it takes: a turn is
-- the messages that had arrived when it looked, and whether its response had a receiver. The product
-- of two `f32` fits an `f64`, so that the pixels of an edge are computed exactly.
--
-- Not modelled: message texts, and what the command line prints; the PDF object graph
-- (opdf-pdf/src/objects.rs), of which the blank page and the copy of a page are parameters of the PDF
-- document; its portable pages; opening and saving files, parameters of the command line; pdfium, a
-- parameter too, its binding and its lock; the handle of the render service
-- (opdf-render/src/service.rs); layout, zoom, the nearest cached scale, the viewer's own state and
-- the user interface (opdf-app). The scale for a page and the upload of a texture are parameters.
-- Paths are compared as on a Unix system.
pub mod Base
pub mod Error
pub mod Page
pub mod Document
pub mod VecDocument
pub mod Command
pub mod Undo
pub mod UndoStack
pub mod PageSelection
pub mod Transfer
pub mod Cli
pub mod Render
pub mod RenderCache
pub mod Geometry
pub mod Raster
pub mod Worker
pub mod Scheduler
pub mod Textures
pub mod Viewer
pub mod FrameCache
pub mod PageMap
pub mod PdfDocument
mod Tests
