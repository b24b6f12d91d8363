-- ===== src/Site/Pages.antt =====
-- The pages of the site that stand by themselves, and the frame around every page.
pub mod Frame
pub mod Home
pub mod Product
pub mod Pricing
pub mod Images
