-- ===== src/Policy.antt =====
-- core/management/policy: the management service of the users, with its admin credentials. `Session`
-- is the signed cookie, `Service` the state and the replies, `Admins` who counts as an admin, `Oidc`
-- the sign-in, `Users` the handlers of users and access checks.
pub mod Session
pub mod Service
pub mod Admins
pub mod Oidc
pub mod Users
mod Examples
