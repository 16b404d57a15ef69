-- ===== src/Log.antt =====
-- cczoecpp/Log: levels, events, formatters, appenders, loggers and their manager.
pub mod Formatter
pub mod Pattern
pub mod Init
pub mod Logger
pub mod Output
pub mod Manager
mod Runs
