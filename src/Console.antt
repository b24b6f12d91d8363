-- ===== src/Console.antt =====
-- The admin console, console/: its requests, the session, and one module for each screen.
pub mod Types
pub mod Parts
pub mod Api
pub mod Format
pub mod Theme
pub mod Session
pub mod Policy
pub mod Machines
pub mod Groups
pub mod Audit
pub mod Enrollment
pub mod Overview
pub mod App
