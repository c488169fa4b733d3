-- ===== src/Runtime/Laws.antt =====
-- What holds of every run, whatever calls are made on it.
pub mod Refinement
pub mod Outcomes
pub mod Values
pub mod Traces
pub mod Bounds
pub mod Clock
pub mod Ending
pub mod Proposals
pub mod Budget
