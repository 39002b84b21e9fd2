-- ===== src/App.antt =====
-- The terminal page: site/app.mjs. Painting, the scrollback's owner, the gate before the component,
-- and connecting.
pub mod Painter
pub mod Scrollback
pub mod Connect
pub mod Gate
pub mod Input
pub mod Pump
pub mod Ending
mod Tests
