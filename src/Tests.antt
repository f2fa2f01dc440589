-- ===== src/Tests.antt =====
-- Runs of the definitions on concrete inputs, with the interfaces filled by small implementations.
mod World
mod Lines
mod Runs
mod Scaling
mod Loading
mod Handout
mod Checks
mod Calls
mod Dials
mod Connects
mod Screens
