-- ===== src/Store.antt =====
-- store/RedisStore.ts and the value types of types.ts.
mod Defs
mod Laws
mod Cleaning
unfoldable pub use Defs.*
pub use Laws.*
unfoldable pub use Cleaning.*
