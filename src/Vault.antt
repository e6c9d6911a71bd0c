-- ===== src/Vault.antt =====
-- apps/desktop/src/infrastructure/vault.ts: the local SQLite vault. `Db` has the connection and the
-- tables; the other modules are the operations, table by table.
pub mod Shared
pub mod Db
pub mod Transaction
pub mod Init
pub mod Keeps
pub mod Keyed
pub mod Messages
pub mod History
pub mod Otpk
pub mod Keys
pub mod Search
pub mod Buffers
pub mod Working
pub mod Written
pub mod Tests
