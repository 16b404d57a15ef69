-- ===== src/Http.antt =====
-- cczoecpp/Net/Http/http.{h,cpp}: the messages, their headers and what `dump` prints of them.
pub mod Tables
pub mod Names
pub mod Headers
pub mod Message
pub mod Dump
mod Runs
