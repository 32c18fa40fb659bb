-- ===== src/Examples.antt =====
-- The theorems at concrete inputs.
mod Data
mod Auth
mod Limits
mod Filters
mod Verdicts
mod Tools
mod Satellite
mod Service
mod Api
