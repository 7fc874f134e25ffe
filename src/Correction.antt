-- ===== src/Correction.antt =====
-- Time-correction requests (time-correction-requests/).
mod Record
mod Aggregate
mod Repository
pub mod Service
pub mod Frame
pub mod Approval
pub mod Uniqueness
unfoldable pub use Record.*
unfoldable pub use Aggregate.*
unfoldable pub use Repository.*
