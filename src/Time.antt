-- ===== src/Time.antt =====
-- Calendar dates and wall-clock times (utils/helpers/dates.ts, utils/helpers/time-of-day.ts).
mod Dates
mod Clock
pub mod ClockLaws
pub mod DateLaws
unfoldable pub use Dates.*
unfoldable pub use Clock.*
