-- ===== src/Kmip/Handlers.antt =====
-- internal/kmip/handler.go: the operation handlers.
pub mod Template
pub mod Objects
pub mod Keys
pub mod Lifecycle
pub mod Attributes
pub mod Cryptographic
pub mod Information
