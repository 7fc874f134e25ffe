-- ===== src/Entry.antt =====
-- Time entries (time-entries/): one row for each segment between a punch in and a punch out.
mod Record
mod Aggregate
mod Repository
pub mod Service
pub mod Invariant
pub mod Punch
pub mod Writes
pub mod Applied
pub mod History
unfoldable pub use Record.*
unfoldable pub use Aggregate.*
unfoldable pub use Repository.*
