-- ===== src/Http.antt =====
-- The web layer, http/ of the repository.
pub mod Url
pub mod Path
pub mod Range
pub mod Config
pub mod Body
pub mod Cache
pub mod Stages
pub mod Headers
pub mod Status
pub mod Response
pub mod Connection
pub mod Handler
