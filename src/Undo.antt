-- ===== src/Undo.antt =====
-- What makes undo exact (the laws that opdf-core/src/command.rs and opdf-ops/src/undo_stack.rs rely
-- on), over the reference document.
pub mod PageCommands
pub mod CompositeLaws
pub mod CompositeInverse
pub mod Merges
pub mod Copies
pub mod Sequences
pub mod Runs
pub mod PageLaws
pub mod PageInverse
pub mod Lawful
