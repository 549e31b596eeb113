-- ===== src/Tests.antt =====
-- Examples: the theorems at concrete inputs.
mod Data
mod Requests
mod Tables
mod Prices
mod Encodings
mod Submission
mod Polling
mod Runs
mod Start
mod Clients
