-- ===== src/Console/Policy.antt =====
-- console/src/policy and console/src/screens/policy.tsx: reading the YAML, showing a difference,
-- writing a new revision, and the screen.
pub mod Yaml
pub mod Diff
pub mod Draft
pub mod Editing
pub mod Screen
pub mod Session
