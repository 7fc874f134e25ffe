-- ===== src/Chain.antt =====
-- Approval chains (approval-chains/): who approves the requests of an employee.
mod Record
mod Repository
mod Steps
pub mod Service
pub mod Table
pub mod Ending
pub mod Setting
pub mod SetChain
pub mod Requested
pub mod Moving
pub mod EndStep
pub mod History
unfoldable pub use Record.*
unfoldable pub use Repository.*
unfoldable pub use Steps.*
