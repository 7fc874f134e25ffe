-- ===== src/Tests.antt =====
-- Concrete calls of the program's operations.
mod Data
mod Leaves
mod Clock
mod Schedules
mod Payroll
mod Chains
