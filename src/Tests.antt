-- ===== src/Tests.antt =====
-- The theorems at concrete inputs, on fixed-point numbers, and tests of the definitions.
mod NotNumbers
mod Budgets
mod Windows
mod Caches
mod Routing
mod Restarts
mod Requests
mod Texts
mod Streams
