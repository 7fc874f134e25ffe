-- ===== src/Storage.antt =====
-- Attachments (storage/): the validation of the bytes of a file, and the objects and rows that
-- stand for it.
mod Validation
mod Record
pub mod Service
unfoldable pub use Validation.*
unfoldable pub use Record.*
