-- ===== src/Storage.antt =====
-- internal/storage: the managed objects, the interface of a key store, and the stores.
pub mod Types
pub mod Interface
pub mod Memory
pub mod Tables
pub mod Sqlite
pub mod AssetGraph
pub mod Assets
pub mod Inventory
pub mod Conversation
pub mod Refinement
