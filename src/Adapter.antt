-- ===== src/Adapter.antt =====
-- internal/adapter: the lines and blocks that UAWP keeps in the files of the tools.
pub mod Block
pub mod ImportLine
pub mod Entry
