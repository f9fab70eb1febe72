-- ===== src/S3/Policy/Actions.antt =====
-- src/s3/policy.go: the actions that a policy speaks of, their bit numbers and their names.
use swifty.Base.{ℕ, String, List, [], ◌∷◌}

-- The constants S3P_*.
pub data Action : Type 0 where
  head_bucket list_all_my_buckets list_bucket list_objects get_accelerate_configuration : Action
  get_analytics_configuration get_bucket_acl get_bucket_cors get_bucket_location : Action
  get_bucket_logging get_bucket_notification get_bucket_policy get_bucket_request_payment : Action
  get_bucket_tagging get_bucket_versioning get_bucket_website get_inventory_configuration : Action
  get_ip_configuration get_lifecycle_configuration get_metrics_configuration get_object : Action
  get_object_acl get_object_tagging get_object_torrent get_object_version : Action
  get_object_version_acl get_object_version_for_replication get_object_version_tagging : Action
  get_object_version_torrent get_replication_configuration list_bucket_by_tags : Action
  list_bucket_multipart_uploads list_bucket_versions list_multipart_upload_parts : Action
  abort_multipart_upload create_bucket delete_bucket delete_bucket_website delete_object : Action
  delete_object_tagging delete_object_version delete_object_version_tagging : Action
  put_accelerate_configuration put_analytics_configuration put_bucket_cors : Action
  put_bucket_logging put_bucket_notification put_bucket_request_payment : Action
  put_bucket_tagging put_bucket_versioning put_bucket_website put_inventory_configuration : Action
  put_ip_configuration put_lifecycle_configuration put_metrics_configuration put_object : Action
  put_object_tagging put_object_version_tagging put_replication_configuration : Action
  replicate_delete replicate_object replicate_tags restore_object delete_bucket_policy : Action
  object_owner_override_to_bucket_owner put_bucket_acl put_bucket_policy put_object_acl : Action
  put_object_version_acl all : Action

-- Their values.
unfoldable pub code : Action → ℕ
code head_bucket = 0
code list_all_my_buckets = 1
code list_bucket = 2
code list_objects = 3
code get_accelerate_configuration = 16
code get_analytics_configuration = 17
code get_bucket_acl = 18
code get_bucket_cors = 19
code get_bucket_location = 20
code get_bucket_logging = 21
code get_bucket_notification = 22
code get_bucket_policy = 23
code get_bucket_request_payment = 24
code get_bucket_tagging = 25
code get_bucket_versioning = 26
code get_bucket_website = 27
code get_inventory_configuration = 28
code get_ip_configuration = 29
code get_lifecycle_configuration = 30
code get_metrics_configuration = 31
code get_object = 32
code get_object_acl = 33
code get_object_tagging = 34
code get_object_torrent = 35
code get_object_version = 36
code get_object_version_acl = 37
code get_object_version_for_replication = 38
code get_object_version_tagging = 39
code get_object_version_torrent = 40
code get_replication_configuration = 41
code list_bucket_by_tags = 42
code list_bucket_multipart_uploads = 43
code list_bucket_versions = 44
code list_multipart_upload_parts = 45
code abort_multipart_upload = 64
code create_bucket = 65
code delete_bucket = 66
code delete_bucket_website = 67
code delete_object = 68
code delete_object_tagging = 69
code delete_object_version = 70
code delete_object_version_tagging = 71
code put_accelerate_configuration = 72
code put_analytics_configuration = 73
code put_bucket_cors = 74
code put_bucket_logging = 75
code put_bucket_notification = 76
code put_bucket_request_payment = 77
code put_bucket_tagging = 78
code put_bucket_versioning = 79
code put_bucket_website = 80
code put_inventory_configuration = 81
code put_ip_configuration = 82
code put_lifecycle_configuration = 83
code put_metrics_configuration = 84
code put_object = 85
code put_object_tagging = 86
code put_object_version_tagging = 87
code put_replication_configuration = 88
code replicate_delete = 89
code replicate_object = 90
code replicate_tags = 91
code restore_object = 92
code delete_bucket_policy = 93
code object_owner_override_to_bucket_owner = 94
code put_bucket_acl = 95
code put_bucket_policy = 96
code put_object_acl = 97
code put_object_version_acl = 98
code all = 127

-- The entries of S3PolicyAction_Map.
unfoldable pub action_map : List (String × Action)
action_map =
    ("s3:HeadBucket", head_bucket)
    ∷ ("s3:ListAllMyBuckets", list_all_my_buckets)
    ∷ ("s3:ListBucket", list_bucket)
    ∷ ("s3:ListObjects", list_objects)
    ∷ ("s3:GetAccelerateConfiguration", get_accelerate_configuration)
    ∷ ("s3:GetAnalyticsConfiguration", get_analytics_configuration)
    ∷ ("s3:GetBucketAcl", get_bucket_acl)
    ∷ ("s3:GetBucketCORS", get_bucket_cors)
    ∷ ("s3:GetBucketLocation", get_bucket_location)
    ∷ ("s3:GetBucketLogging", get_bucket_logging)
    ∷ ("s3:GetBucketNotification", get_bucket_notification)
    ∷ ("s3:GetBucketPolicy", get_bucket_policy)
    ∷ ("s3:GetBucketRequestPayment", get_bucket_request_payment)
    ∷ ("s3:GetBucketTagging", get_bucket_tagging)
    ∷ ("s3:GetBucketVersioning", get_bucket_versioning)
    ∷ ("s3:GetBucketWebsite", get_bucket_website)
    ∷ ("s3:GetInventoryConfiguration", get_inventory_configuration)
    ∷ ("s3:GetIpConfiguration", get_ip_configuration)
    ∷ ("s3:GetLifecycleConfiguration", get_lifecycle_configuration)
    ∷ ("s3:GetMetricsConfiguration", get_metrics_configuration)
    ∷ ("s3:GetObject", get_object)
    ∷ ("s3:GetObjectAcl", get_object_acl)
    ∷ ("s3:GetObjectTagging", get_object_tagging)
    ∷ ("s3:GetObjectTorrent", get_object_torrent)
    ∷ ("s3:GetObjectVersion", get_object_version)
    ∷ ("s3:GetObjectVersionAcl", get_object_version_acl)
    ∷ ("s3:GetObjectVersionForReplication", get_object_version_for_replication)
    ∷ ("s3:GetObjectVersionTagging", get_object_version_tagging)
    ∷ ("s3:GetObjectVersionTorrent", get_object_version_torrent)
    ∷ ("s3:GetReplicationConfiguration", get_replication_configuration)
    ∷ ("s3:ListBucketByTags", list_bucket_by_tags)
    ∷ ("s3:ListBucketMultipartUploads", list_bucket_multipart_uploads)
    ∷ ("s3:ListBucketVersions", list_bucket_versions)
    ∷ ("s3:ListMultipartUploadParts", list_multipart_upload_parts)
    ∷ ("s3:AbortMultipartUpload", abort_multipart_upload)
    ∷ ("s3:CreateBucket", create_bucket)
    ∷ ("s3:DeleteBucket", delete_bucket)
    ∷ ("s3:DeleteBucketWebsite", delete_bucket_website)
    ∷ ("s3:DeleteObject", delete_object)
    ∷ ("s3:DeleteObjectTagging", delete_object_tagging)
    ∷ ("s3:DeleteObjectVersion", delete_object_version)
    ∷ ("s3:DeleteObjectVersionTagging", delete_object_version_tagging)
    ∷ ("s3:PutAccelerateConfiguration", put_accelerate_configuration)
    ∷ ("s3:PutAnalyticsConfiguration", put_analytics_configuration)
    ∷ ("s3:PutBucketCORS", put_bucket_cors)
    ∷ ("s3:PutBucketLogging", put_bucket_logging)
    ∷ ("s3:PutBucketNotification", put_bucket_notification)
    ∷ ("s3:PutBucketRequestPayment", put_bucket_request_payment)
    ∷ ("s3:PutBucketTagging", put_bucket_tagging)
    ∷ ("s3:PutBucketVersioning", put_bucket_versioning)
    ∷ ("s3:PutBucketWebsite", put_bucket_website)
    ∷ ("s3:PutInventoryConfiguration", put_inventory_configuration)
    ∷ ("s3:PutIpConfiguration", put_ip_configuration)
    ∷ ("s3:PutLifecycleConfiguration", put_lifecycle_configuration)
    ∷ ("s3:PutMetricsConfiguration", put_metrics_configuration)
    ∷ ("s3:PutObject", put_object)
    ∷ ("s3:PutObjectTagging", put_object_tagging)
    ∷ ("s3:PutObjectVersionTagging", put_object_version_tagging)
    ∷ ("s3:PutReplicationConfiguration", put_replication_configuration)
    ∷ ("s3:ReplicateDelete", replicate_delete)
    ∷ ("s3:ReplicateObject", replicate_object)
    ∷ ("s3:ReplicateTags", replicate_tags)
    ∷ ("s3:RestoreObject", restore_object)
    ∷ ("s3:DeleteBucketPolicy", delete_bucket_policy)
    ∷ ("s3:ObjectOwnerOverrideToBucketOwner", object_owner_override_to_bucket_owner)
    ∷ ("s3:PutBucketAcl", put_bucket_acl)
    ∷ ("s3:PutBucketPolicy", put_bucket_policy)
    ∷ ("s3:PutObjectAcl", put_object_acl)
    ∷ ("s3:PutObjectVersionAcl", put_object_version_acl)
    ∷ ("s3:*", all)
    ∷ []
