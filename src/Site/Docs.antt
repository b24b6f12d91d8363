-- ===== src/Site/Docs.antt =====
-- web/lib/docs.ts and the routes of the documentation: reading the pages, the navigation, the links
-- inside the pages, the headings and the images.
pub mod Frontmatter
pub mod Nav
pub mod Assets
pub mod Links
pub mod Headings
pub mod Markdown
pub mod Page
pub mod Layout
pub mod Copy
