-- ===== src/Requests.antt =====
-- src/lib/send-validation.ts and the checks of src/lib/api.ts: which bodies of requests to send mail
-- are accepted, and as what.
pub mod Json
pub mod Checks
pub mod Inputs
pub mod Fields
pub mod Bodies
mod Texts
mod Identities
mod Tags
mod References
mod Objects
pub mod DirectEmail
mod Topics
pub mod Create
pub mod VersionTwo
