-- ===== src/Engine/Options.antt =====
-- The options of an engine, read and written.
mod Getters
mod Setters
mod Hooks
pub mod Workers
unfoldable pub use Getters.*
unfoldable pub use Setters.*
unfoldable pub use Hooks.*
