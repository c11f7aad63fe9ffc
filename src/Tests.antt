-- ===== src/Tests.antt =====
-- Tests of the definitions, and the theorems applied at concrete inputs.
mod Bridge
mod Connections
mod Editor
mod Platform
mod Resource
mod Studio
mod Tools
