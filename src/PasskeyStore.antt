-- ===== src/PasskeyStore.antt =====
-- The passkey that this browser holds: site/passkey-store.ts.
pub mod Der
mod Signatures
pub mod Records
pub mod Ceremonies
pub mod Asserting
mod Verified
mod Asserted
mod Tests
mod Usable
mod Identities
