-- ===== src/S3.antt =====
-- The S3 service (src/s3) and the documents that it keeps (src/s3/mgo).
pub mod Policy
pub mod Store
pub mod Data
pub mod Collection
pub mod Upload
pub mod Keys
pub mod Bucket
pub mod Listing
pub mod Acct
pub mod Object
