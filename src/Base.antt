-- ===== src/Base.antt =====
-- Errors, results and JSON values, as the Go code passes them.
mod Errors
mod Encoding
unfoldable pub use Errors.*
unfoldable pub use Encoding.*
