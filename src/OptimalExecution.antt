-- ===== src/OptimalExecution.antt =====
-- Causal sequential execution, src/polymarket_bt/backtest/optimal_execution.py: a parent order, the
-- policies that slice it, the volume they may see, the session that keeps the account, and the score.
pub mod State
pub mod Policy
pub mod Bounds
pub mod Cursor
pub mod Span
pub mod Objective
pub mod Session
pub mod Consistent
pub mod Account
pub mod Handoff
