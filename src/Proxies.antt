-- ===== src/Proxies.antt =====
-- The proxies before the databases (src/proxies).
pub mod Mgo
