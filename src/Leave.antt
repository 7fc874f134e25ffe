-- ===== src/Leave.antt =====
-- Leave requests (leave-requests/): the record and its constants, the aggregate, the day count,
-- the repository, the balances and the use-case service.
mod Record
mod Aggregate
pub mod Lifecycle
pub mod Progress
mod DayCount
mod Repository
pub mod HalfDay
pub mod Counting
pub mod Service
pub mod Reserve
pub mod Decisions
pub mod Ledger
pub mod Refusal
pub mod History
pub mod Overlap
unfoldable pub use Record.*
unfoldable pub use Aggregate.*
unfoldable pub use DayCount.*
unfoldable pub use Repository.*
