-- ===== src/Tests.antt =====
-- Concrete inputs, runs of the model on them, and the theorems at them.
mod Data
mod Ledger
mod Operations
mod Window
mod Deductions
mod Evaluation
