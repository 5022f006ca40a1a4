-- ===== src/Etsi014.antt =====
-- src/internal/etsi014: the interface of the applications, a server over any repository, and the
-- client of a segmented service.
pub mod Json
pub mod Messages
pub mod Reading
pub mod Server
pub mod Requests
pub mod Handler
pub mod Access
pub mod Once
pub mod Service
pub mod Client
pub mod Agreement
pub mod Granted
mod Examples
