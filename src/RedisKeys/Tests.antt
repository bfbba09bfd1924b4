-- ===== src/RedisKeys/Tests.antt =====
-- A worker may have any id.
use distributed_job_queue.Base.{◌≡◌, some}
use distributed_job_queue.RedisKeys.{processing_of}
use distributed_job_queue.RedisKeys.Clashes.{key_of, key_of-key_name}

key_of-key_name_run : key_of "processing:delayed" ≡ some (processing_of "delayed")
key_of-key_name_run = key_of-key_name (processing_of "delayed")
