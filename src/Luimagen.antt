-- ===== src/Luimagen.antt =====
-- luimagen/: the generator of a table's CRUD layer.
pub mod Runes
pub mod Names
pub mod Quote
pub mod Checks
pub mod Table
pub mod Splice
pub mod Syntax
pub mod Stubs
pub mod Targets
pub mod ImportBlock
pub mod Imports
pub mod Patch
pub mod Graphql
pub mod Source
pub mod Files
pub mod Schema
pub mod Generate
pub mod Sample
mod Tests
mod PatchTests
mod PlaceTests
mod ImportTests
