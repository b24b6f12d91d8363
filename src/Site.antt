-- ===== src/Site.antt =====
-- The marketing site, web/: its environment, the demo request, the documentation pages and what
-- search engines read.
pub mod Env
pub mod Demo
pub mod Docs
pub mod Seo
pub mod Pages
