-- ===== src/Allocation.antt =====
-- Leave allocations (leave-allocations/): the append-only ledger of granted days.
mod Record
mod Repository
pub mod Service
pub mod Balance
unfoldable pub use Record.*
unfoldable pub use Repository.*
