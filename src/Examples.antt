-- ===== src/Examples.antt =====
-- The programs of examples/. Printing is left out.
pub mod Admissions
pub mod Budgets
pub mod Doors
mod Tests
