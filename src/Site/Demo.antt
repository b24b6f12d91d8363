-- ===== src/Site/Demo.antt =====
-- The demo request: its schema, the e-mail that it becomes, and the action that handles the form.
pub mod Schema
pub mod Email
pub mod Sender
pub mod Submit
pub mod Action
pub mod Form
