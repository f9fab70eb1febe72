-- ===== src/Tests.antt =====
-- The theorems at concrete inputs.
mod Common
mod Gate
mod Routing
mod S3
mod Waits
mod Storage
mod Listing
mod Pods
mod Proxies
mod Stats
mod Secrets
