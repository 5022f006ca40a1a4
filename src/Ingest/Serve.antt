-- ===== src/Ingest/Serve.antt =====
-- repository.go: the operations of the open repository.
mod Request
mod Master
mod Slave
mod Views
unfoldable pub use Request.*
unfoldable pub use Master.*
unfoldable pub use Slave.*
unfoldable pub use Views.*
