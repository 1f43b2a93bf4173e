-- ===== src/Fcgi.antt =====
-- modules/mod_fcgi/: the FastCGI client.
pub mod Proto
pub mod Environment
pub mod Headers
pub mod Pool
pub mod Completion
pub mod Handler
