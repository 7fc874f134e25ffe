-- ===== src/Schedule.antt =====
-- Work schedules (work-schedules/): the record, the aggregate and its value objects.
mod Record
mod Aggregate
mod Repository
pub mod Cascade
pub mod Change
pub mod Service
pub mod CascadeLaws
pub mod Versioning
pub mod Cancelling
unfoldable pub use Record.*
unfoldable pub use Aggregate.*
unfoldable pub use Repository.*
