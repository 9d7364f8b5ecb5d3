-- ===== src/Keys.antt =====
-- core/keys: the API-key store. `Profile` has the data and the outside world, `Hash` the key
-- hashing, `Save` the atomic write of keys.json, `Store` the operations on the store, `Fields` the
-- encrypted fields, `Load` the start of a process, `Allowlist` the source-address check; `Examples`
-- runs their theorems.
pub mod Profile
pub mod Hash
pub mod Save
pub mod Store
pub mod Fields
pub mod Load
pub mod Allowlist
pub mod Examples
