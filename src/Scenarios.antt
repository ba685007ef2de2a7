-- ===== src/Scenarios.antt =====
-- Tests, and the properties applied to concrete requests and stores.
pub mod World
pub mod Requests
pub mod Keys
pub mod Parts
pub mod Databases
pub mod Web
pub mod Rest
pub mod Assets
pub mod Startup
pub mod Archives
