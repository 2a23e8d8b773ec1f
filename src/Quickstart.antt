-- ===== src/Quickstart.antt =====
-- examples/quickstart/: Graph is its resolvers over luima's helpers, App its server.
pub mod Graph
pub mod App
mod Tests
