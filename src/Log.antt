-- ===== src/Log.antt =====
-- gudov/log.h, gudov/log.cpp: levels, patterns, loggers and their configuration.
pub mod Level
pub mod Pattern
pub mod Event
pub mod Parsed
pub mod Logger
pub mod Config
pub mod Laws
pub mod Changes
mod Tests
