-- ===== src/Core.antt =====
-- src/internal/core/key.go: the domain of the key management system.
pub mod Errors
pub mod Id
pub mod Key
pub mod Batch
mod Examples
pub mod Token
pub mod Repository
