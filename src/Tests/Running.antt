-- ===== src/Tests/Running.antt =====
-- The subcommands over a disk of PDF documents.
use open_pdf_editor.Base.{
  length, Bool, ◌==◌, Any, ℕ, ◌+◌, drop, take, ◌≡◌, refl, true, false, none, some, List, [], ◌∷◌,
  All, map, get_elem?, Option, ◌⊎◌, inr, arith, if◌then◌else◌,
}
use open_pdf_editor.Error.{Error, malformed, ok, err, io, Outcome, done}
use open_pdf_editor.Page.{PageSize, Rotation}
use open_pdf_editor.VecDocument.{with_pages}
use open_pdf_editor.VecDocument.Construct.{with_pages-Valid}
use open_pdf_editor.VecDocument.Valid.{Valid}
use open_pdf_editor.PageSelection.{
  contiguous_runs, SelectionPart, resolve, all_indices, dedup, sort,
}
use open_pdf_editor.PageSelection.Resolving.{WellFormed}
use open_pdf_editor.Transfer.{extract_range}
use open_pdf_editor.PageMap.{PageSlot, collect_ids, find_slot, slot_position, insert_slot}
use open_pdf_editor.PdfDocument.{PdfDocument, import_pages, pdf_document, page_count, page_ids}
use open_pdf_editor.PdfDocument.Refinement.{shown}
use open_pdf_editor.PdfDocument.Importing.{Uncopyable}
use open_pdf_editor.Tests.Objects.{numbered}
use open_pdf_editor.Cli.{Attempt, success, PathBuf, text, CliError, failure, open_failed, operation}
use open_pdf_editor.Cli.Arguments.{SplitArgs, MergeArgs, ExtractArgs, extract}
use open_pdf_editor.Cli.Paths.{path_eq}
use open_pdf_editor.Cli.Running.{
  run_merge, run_split, save_halves, ◌>>=◌, DocumentIo, saved, run_invocation, run_extract,
}
use open_pdf_editor.Cli.Running.Refusals.{IsSaveFailure, run_invocation-refuses}
use open_pdf_editor.Cli.Running.Overwriting.{run_invocation-declines}
use open_pdf_editor.Cli.Running.Merging.{AnyUncopyable, all_contents, run_merge-writes}
use open_pdf_editor.Cli.Running.Splitting.{run_split-writes}
use open_pdf_editor.Cli.Running.Contents.{contents}
use open_pdf_editor.Cli.Running.Extracting.{UncopyableAt, run_extract-writes}

abbrev Disk : Type 0
Disk = List (PathBuf × PdfDocument ℕ)

read : PathBuf → Disk → Option (PdfDocument ℕ)
read path [] = none
read path ((name, d) ∷ files) = if path_eq name path then some d else read path files

abbrev save : PathBuf → PdfDocument ℕ → Disk → Outcome (PdfDocument ℕ × Disk) (Unit {0})
save path d files = done tt (d, (path, d) ∷ files)

abbrev a4 : PageSize
a4 = record { width_pt = 595; height_pt = 842 }

abbrev slot : ℕ → PageSlot
slot i = record {
  id = i;
  object_id = (i + 10, 0);
  size = a4;
  rotation = Rotation.none;
  rotation_changed = false;
}

abbrev holding : ℕ → ℕ → List PageSlot → PdfDocument ℕ
holding id next slots = record {
  id = id;
  incremental = 20;
  root_pages_id = (2, 0);
  pages = record { slots = slots; removed = []; allocator = record { next = next } };
  revision = 0;
  dirty = record { structure = false; rotations = false };
}

abbrev three : PdfDocument ℕ
three = holding 7 3 (slot 0 ∷ slot 1 ∷ slot 2 ∷ [])

abbrev blank : PdfDocument ℕ
blank = holding 9 0 []

abbrev disk_io : DocumentIo (PdfDocument ℕ) Disk
disk_io = record {
  open_file = λ path files. elim (read path files) [ none ↦ err io | some d ↦ ok d ];
  save_incremental = save;
  save_compacted = save;
  empty = λ files. ok blank;
  exists = λ path files. elim (read path files) [ none ↦ false | some d ↦ true ];
}

abbrev input : PathBuf
input = text (b'i' ∷ [])

abbrev output : PathBuf
output = text (b'o' ∷ [])

three-Valid : Valid (shown three)
unfolding with_pages
three-Valid = (with_pages-Valid 7 3 a4).0

abbrev disk : Disk
disk = (input, three) ∷ []

abbrev parts : List SelectionPart
parts = record { first = 2; last = none } ∷ []

abbrev wanted : ExtractArgs
wanted = record { input_path = input; pages = parts; output_path = output; force = false }

-- the input's path, given as the output's
abbrev clobbering : ExtractArgs
clobbering = record wanted { output_path = input }

abbrev missing : ExtractArgs
missing = record wanted { input_path = output; output_path = text [] }

missing_lem :
    run_invocation (pdf_document numbered) disk_io (extract missing) disk
    ≡ (failure (open_failed output io), disk)
unfolding run_invocation read path_eq ◌>>=◌
missing_lem = refl

run_invocation-refuses_example : IsSaveFailure (open_failed output io) ⊎ (disk ≡ disk)
run_invocation-refuses_example =
    run_invocation-refuses (pdf_document numbered) disk_io (extract missing) disk missing_lem

input_lem : disk_io.exists input disk ≡ true
unfolding read path_eq
input_lem = refl

run_invocation-declines_example :
    (e : CliError) × (run_invocation (pdf_document numbered) disk_io (extract clobbering) disk
      ≡ (failure e, disk))
run_invocation-declines_example =
    run_invocation-declines (pdf_document numbered) disk_io (extract clobbering) disk input refl
      refl input_lem

output_lem : disk_io.exists output disk ≡ false
unfolding read path_eq
output_lem = refl

opens : disk_io.open_file input disk ≡ ok three
unfolding read path_eq
opens = refl

parts-WellFormed : All WellFormed parts
parts-WellFormed = ((omega arith, λ last h. absurd (cc)), tt)

resolves : resolve parts (page_count three) ≡ ok (1 ∷ 2 ∷ [])
unfolding resolve all_indices dedup sort
resolves = refl

run_extract-writes_example :
    ((output_document : PdfDocument ℕ) × (run_extract (pdf_document numbered) disk_io wanted disk
        ≡ saved output (disk_io.save_compacted output output_document disk))
      × (map some (contents (shown output_document))
          ≡ map (get_elem? (contents (shown three))) (1 ∷ 2 ∷ [])))
    ⊎ (Any (UncopyableAt numbered three) (1 ∷ 2 ∷ [])
        × (run_extract (pdf_document numbered) disk_io wanted disk
            ≡ (failure (operation malformed), disk)))
run_extract-writes_example =
    run_extract-writes numbered disk_io wanted disk three blank (inr output_lem) opens refl
      three-Valid refl parts-WellFormed resolves

abbrev merging_both : MergeArgs
merging_both = record { output_path = output; input_paths = input ∷ input ∷ []; force = false }

run_merge-writes_example :
    ((output_document : PdfDocument ℕ) × (run_merge
          (pdf_document numbered)
          disk_io
          merging_both
          disk
        ≡ saved output (disk_io.save_compacted output output_document disk))
      × (contents (shown output_document) ≡ all_contents (three ∷ three ∷ [])))
    ⊎ (AnyUncopyable numbered (three ∷ three ∷ [])
        × ((e : Error) × (run_merge (pdf_document numbered) disk_io merging_both disk
              ≡ (failure (operation e), disk))))
run_merge-writes_example =
    run_merge-writes numbered disk_io merging_both disk (three ∷ three ∷ []) blank (inr output_lem)
      (opens, three-Valid, (opens, three-Valid, tt)) refl refl

abbrev is_saved : Attempt (Unit {0}) × Disk → Bool
is_saved (success _, files) = length files == 2
is_saved (failure _, files) = false

extracted : is_saved (run_extract (pdf_document numbered) disk_io wanted disk) ≡ true
unfolding run_extract read path_eq resolve all_indices dedup sort contiguous_runs ◌>>=◌
    extract_range collect_ids import_pages find_slot slot_position insert_slot
extracted = refl

-- the last page of this document cannot be copied, after the one before it was
abbrev unreadable : Disk
unreadable =
    (input, holding 7 3 (slot 0 ∷ slot 1 ∷ record (slot 2) { object_id = (200, 0) } ∷ [])) ∷ []

not_extracted :
    run_extract (pdf_document numbered) disk_io wanted unreadable
    ≡ (failure (operation malformed), unreadable)
unfolding run_extract read path_eq resolve all_indices dedup sort contiguous_runs ◌>>=◌
    extract_range collect_ids import_pages find_slot slot_position insert_slot
not_extracted = refl

abbrev second_output : PathBuf
second_output = text (b'p' ∷ [])

abbrev splitting_last : SplitArgs
splitting_last = record {
  input_path = input;
  at_page = 3;
  out_a_path = output;
  out_b_path = second_output;
  force = false;
}

paths_differ : path_eq output second_output ≡ false
unfolding path_eq
paths_differ = refl

second_output_lem : disk_io.exists second_output disk ≡ false
unfolding read path_eq
second_output_lem = refl

run_split-writes_example :
    ((head : PdfDocument ℕ) × (tail : PdfDocument ℕ) × (run_split
          (pdf_document numbered)
          disk_io
          splitting_last
          disk
        ≡ save_halves (pdf_document numbered) disk_io splitting_last (head, tail) disk)
      × (contents (shown head) ≡ take 2 (contents (shown three)))
      × (contents (shown tail) ≡ drop 2 (contents (shown three))))
    ⊎ (Any (Uncopyable numbered three) (drop 2 (page_ids three))
        × (run_split (pdf_document numbered) disk_io splitting_last disk
            ≡ (failure (operation malformed), disk)))
run_split-writes_example =
    run_split-writes numbered disk_io splitting_last disk three blank paths_differ (inr output_lem)
      (inr second_output_lem) opens refl three-Valid refl (omega arith) (omega arith)

-- d/o and d//o are one path, ./o and o are two
same_file : path_eq (text (b'd' ∷ b'/' ∷ b'o' ∷ [])) (text (b'd' ∷ b'/' ∷ b'/' ∷ b'o' ∷ [])) ≡ true
unfolding path_eq
same_file = refl

dotted : path_eq (text (b'.' ∷ b'/' ∷ b'o' ∷ [])) (text (b'o' ∷ [])) ≡ false
unfolding path_eq
dotted = refl

inner_dot :
    path_eq (text (b'd' ∷ b'/' ∷ b'.' ∷ b'/' ∷ b'o' ∷ [])) (text (b'd' ∷ b'/' ∷ b'o' ∷ b'/' ∷ []))
    ≡ true
unfolding path_eq
inner_dot = refl
