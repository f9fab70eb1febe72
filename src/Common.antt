-- ===== src/Common.antt =====
-- The packages of src/common: helpers that every daemon links.
pub mod Ratelimit
pub mod Xqueue
pub mod Bitmask
pub mod Xtimer
pub mod Xwait
pub mod Tcproxy
pub mod Creds
pub mod Crypt
