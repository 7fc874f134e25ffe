-- ===== src/Compensation.antt =====
-- Compensation (compensation/): the effective-dated pay of an employee.
mod Record
mod Money
mod Aggregate
mod Repository
pub mod Store
pub mod Service
pub mod Rounding
pub mod Rates
pub mod SetPay
pub mod Creation
pub mod Bulk
pub mod Batch
pub mod Remaining
pub mod Deletion
pub mod Removal
pub mod Undo
pub mod History
pub mod Correcting
unfoldable pub use Record.*
unfoldable pub use Money.*
unfoldable pub use Aggregate.*
unfoldable pub use Repository.*
