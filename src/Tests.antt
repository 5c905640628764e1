-- ===== src/Tests.antt =====
-- A concrete environment, and the program's theorems at concrete inputs.
pub mod Sandbox
mod OfSolvers
mod OfIpApi
mod OfSets
mod OfSource
mod OfRegistry
mod OfManager
mod OfDeclared
mod OfExporter
