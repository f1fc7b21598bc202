-- ===== src/Settings.antt =====
-- replication/serverSetup.ts, config.ts, and the commands that show them: EchoCommand.ts, InfoCommand.ts, ConfigCommand.ts.
mod Defs
unfoldable pub use Defs.*
pub mod Masters
