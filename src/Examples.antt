-- ===== src/Examples.antt =====
-- Runs at concrete inputs, and the theorems applied to them.
mod Env
mod Console
mod Policy
mod Revising
mod Revoking
mod Groups
mod Overview
mod Enrolling
mod Demo
mod Retry
mod Docs
mod Frontmatter
mod Markdown
mod Pages
