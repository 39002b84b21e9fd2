-- ===== src/TouchSelect.antt =====
-- The touch selection overlay: site/touch-select.mjs. A selection that is held freezes the mirror of
-- the terminal's rows.
pub mod Refit
pub mod Anchor
pub mod Ratchet
pub mod Copy
mod Tests
