-- ===== src/Gate.antt =====
-- The gateway (src/gate): functions, middleware, deployments, and the calls of functions.
pub mod Errors
pub mod Mware
pub mod Function
pub mod Deploy
pub mod Scaler
pub mod Limits
pub mod Pods
pub mod Router
pub mod Call
pub mod Event
pub mod Url
pub mod Stats
