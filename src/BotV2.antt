-- ===== src/BotV2.antt =====
-- The second bot, the house trainer, src/subapps/schwab/bot-v2.
pub mod ProfitLock
pub mod TickExit
pub mod Sizing
pub mod Bars
mod Tests
