-- ===== src/Pnl.antt =====
-- The profit and loss ledger, src/subapps/schwab/pnl.
pub mod Fifo
