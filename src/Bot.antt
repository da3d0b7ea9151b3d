-- ===== src/Bot.antt =====
-- The trading bot, src/subapps/schwab/bot.
pub mod Exit
pub mod Lockout
pub mod State
pub mod Strikes
pub mod Strategy
pub mod Entry
pub mod Trail
pub mod DayGates
pub mod Excursion
pub mod Holds
mod Tests
