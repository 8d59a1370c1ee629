-- ===== src/Examples.antt =====
-- The theorems at concrete inputs, one module for each part of the program.
mod Ledger
mod Account
mod Book
mod Orders
mod Parent
mod Services
mod Backtest
mod Simulator
