-- ===== src/Luimaerr.antt =====
-- luimaerr/errors.go: which text of an error reaches the client, and where it is answered.
pub mod Errors
pub mod Context
pub mod Present
pub mod Chain
pub mod Redaction
pub mod Placement
mod Tests
