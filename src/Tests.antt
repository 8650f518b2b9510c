-- ===== src/Tests.antt =====
-- Concrete runs of the operations, and the theorems at concrete inputs.
mod Editing
mod Documents
mod Moving
mod Selecting
mod Rendering
mod Objects
mod Mapping
mod Viewing
mod Arguments
mod Running
mod Serving
mod Frames
