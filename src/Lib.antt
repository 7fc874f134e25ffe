-- ===== src/Lib.antt =====
-- Asima backend: the request and time-keeping core of an HR service, in TypeScript on NestJS.
--
-- An employee has work schedules (one active row for each weekday), an approval chain of one or two
-- steps, granted days of leave, time entries, and effective-dated pay. Leave requests and time-correction requests are
-- submitted against these, decided along the chain, and cancelled; an approved correction writes
-- the timesheet, and a schedule change cancels the requests that it touches.
--
-- Which file models which part (paths from the repository's root):
--   Base            what the modules share: Boolean tests, lists and tables, exceptions
--                   (src/utils/helpers/http-errors.ts) and use-cases as functions of a state.
--   Time            src/utils/helpers/dates.ts and time-of-day.ts. Dates are day numbers, clock
--                   strings are their two or three numbers.
--   Request         the states, decision paths and actor that both kinds of request share.
--   Access          src/users/domain/: the fields that decide access.
--   Schedule        src/work-schedules/: Record, Aggregate and Repository; Cascade is
--                   domain/cascade-policy.ts, Change is schedule-change.service.ts, and Service is
--                   work-schedules.service.ts.
--   Chain           src/approval-chains/: Repository the reads, Steps the pure part of the service,
--                   Service the operations and the write of their changes.
--   Leave           src/leave-requests/: Aggregate is domain/leave-request.aggregate.ts, DayCount is
--                   leave-day-count.service.ts, Repository the queries, Service the use-cases.
--   Allocation      src/leave-allocations/ and src/leave-requests/leave-balance.service.ts.
--   Entry           src/time-entries/: the aggregate, the repository with its unique index, and
--                   the service.
--   Correction      src/time-correction-requests/, likewise.
--   Storage         src/storage/attachment.service.ts and file-validation.ts.
--   Compensation    src/compensation/: Money is domain/value-objects/pay-rate.ts, Aggregate is
--                   domain/compensation.aggregate.ts, Repository the reads, Store the writes with
--                   the constraints of the table, Service the use-cases.
--   Db              the tables and the published events as one record.
--   Tests           concrete calls.
-- The other files hold the theorems about the component in whose folder they stand.
--
-- A use-case is a function from the tables to a result or an exception, and the tables after it;
-- what was written before a throw stays written, save inside `transaction`. A call runs as one
-- step: no other call comes between its statements. A row is the record of the source without
-- `created_at` and `updated_at`; text is a list of code units; an instant is a number of
-- milliseconds. Days of leave are counted in tenths, as the column `numeric(4,1)` stores them, and
-- grants in whole days; a salary is an exact count of hundredths and a rate of ten-thousandths,
-- where the source computes in doubles, and the divisor of hours that the environment sets is an
-- argument. Numbers are natural numbers without an upper bound. Foreign keys are not modelled: an
-- id that a call passes on to a write is taken to be one of an existing row. Loops over dates are
-- structural in the number of days that are left, which the range gives, so none needs fuel. The
-- object store, the image library and the generator of UUIDs are an argument, the record
-- `ObjectStore`.
--
-- Not modelled: authentication, roles, the service of users, the inbox,
-- pagination and search filters, controllers, DTOs and mappers, migrations, seeds and
-- configuration.
pub mod Base
pub mod Time
pub mod Request
pub mod Access
pub mod Schedule
pub mod Leave
pub mod Chain
pub mod Allocation
pub mod Entry
pub mod Correction
pub mod Compensation
pub mod Storage
pub mod Db
pub mod Tests
