-- ===== src/Server.antt =====
-- server/: what is mounted on Fiber, and the limits and middleware in front of gqlgen.
pub mod Query
pub mod Depth
pub mod Introspection
pub mod Http
pub mod RateLimit
pub mod Cors
pub mod Mount
pub mod Run
mod Tests
mod MiddlewareTests
pub mod MountTests
mod GuardTests
mod RunTests
