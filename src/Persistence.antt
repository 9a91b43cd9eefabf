-- ===== src/Persistence.antt =====
-- persistence.py, _transaction_read.py and _queue_checkpoint.py: the tables of transactions, and
-- what is written to them and read from them.
pub mod Tables
pub mod Rows
pub mod Save
pub mod Load
pub mod Written
pub mod View
pub mod Headers
pub mod Refined
pub mod Revisions
pub mod Copies
pub mod MetadataCopies
pub mod ArtifactCopies
pub mod StepCopies
pub mod HistoryCopies
pub mod Decoding
pub mod Roundtrip
pub mod Query
pub mod RowOrder
pub mod Slices
pub mod Pages
pub mod Samples
mod QueryTests
mod Tests
