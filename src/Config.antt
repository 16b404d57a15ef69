-- ===== src/Config.antt =====
-- cczoecpp/Config: the variables of a configuration, and their conversion from and to text.
pub mod Cast
pub mod Trips
pub mod Vars
pub mod Load
mod Runs
