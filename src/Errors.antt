-- ===== src/Errors.antt =====
-- local-storage/src/errors.rs: the service's error type, its text and its HTTP status.
use rust_local_storage_cdn.Prelude.{ℕ, Text, str, ◌++◌, Result}

pub data StorageError : Type 0 where
  not_found : (bucket key : Text) → StorageError
  already_exists : (bucket key : Text) → StorageError
  invalid_bucket invalid_key invalid_file validation configuration migration : Text → StorageError
  redis json multipart bad_request payload_too_large database io : Text → StorageError
  compression encryption invalid_encryption_algorithm cache : Text → StorageError
  missing_encryption_key : StorageError
  forbidden : Text → StorageError

abbrev pub StorageResult : Type 0 → Type 0
StorageResult A = Result StorageError A

abbrev path_of : Text → Text → Text
path_of bucket key = bucket ++ (str "/" ++ key)

-- `impl Display for StorageError`
unfoldable pub display : StorageError → Text
display (not_found bucket key) = str "File not found: " ++ path_of bucket key
display (already_exists bucket key) = str "File already exists: " ++ path_of bucket key
display (invalid_bucket msg) = str "Invalid bucket: " ++ msg
display (invalid_key msg) = str "Invalid key: " ++ msg
display (invalid_file msg) = str "Invalid file: " ++ msg
display (validation msg) = str "Validation error: " ++ msg
display (configuration msg) = str "Configuration error: " ++ msg
display (migration msg) = str "Migration error: " ++ msg
display (redis msg) = str "Redis error: " ++ msg
display (json msg) = str "JSON error: " ++ msg
display (multipart msg) = str "Multipart error: " ++ msg
display (bad_request msg) = str "Bad request: " ++ msg
display (payload_too_large msg) = str "Payload too large: " ++ msg
display (database msg) = str "Database error: " ++ msg
display (io msg) = str "IO error: " ++ msg
display (compression msg) = str "Compression error: " ++ msg
display (encryption msg) = str "Encryption error: " ++ msg
display (invalid_encryption_algorithm msg) = str "Invalid encryption algorithm: " ++ msg
display (cache msg) = str "Cache error: " ++ msg
display missing_encryption_key = str "Missing encryption key"
display (forbidden msg) = str "Forbidden: " ++ msg

-- The status that `into_response` chooses.
unfoldable pub status : StorageError → ℕ
status (not_found _ _) = 404
status (already_exists _ _) = 409
status (invalid_bucket _) = 400
status (invalid_key _) = 400
status (invalid_file _) = 400
status (validation _) = 400
status (configuration _) = 500
status (migration _) = 500
status (redis _) = 500
status (json _) = 400
status (multipart _) = 400
status (bad_request _) = 400
status (payload_too_large _) = 413
status (database _) = 500
status (io _) = 500
status (compression _) = 500
status (encryption _) = 500
status (invalid_encryption_algorithm _) = 500
status (cache _) = 500
status missing_encryption_key = 500
status (forbidden _) = 403
