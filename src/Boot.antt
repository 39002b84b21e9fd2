-- ===== src/Boot.antt =====
-- The page around the terminal: site/boot.mjs.
pub mod Connstring
pub mod History
pub mod HostKeys
pub mod Dial
pub mod Token
mod Tests
