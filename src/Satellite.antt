-- ===== src/Satellite.antt =====
-- sphere/src/satellite: edge sessions, their trust budgets, and the adjudication of results.
pub mod TrustBudget
pub mod Session
pub mod Adjudicator
pub mod Ws
