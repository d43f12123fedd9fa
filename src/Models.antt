-- ===== src/Models.antt =====
-- local-storage/src/models.rs: the row of the files table, the key row, and the API's views of them.
-- A Uuid is a number, a time is a count of microseconds, JSON metadata is its text, and the f32
-- ratio is the pair of the numbers that it divides.
use rust_local_storage_cdn.Prelude.{ℕ, Text, Bytes, Bool, false, Option, ℤ, unwrap_or}

pub record Ratio : Type 0 where
  pub stored : ℕ
  pub original : ℕ

pub record StoredFile : Type 0 where
  pub id : ℕ
  pub bucket : Text
  pub key : Text
  pub filename : Text
  pub file_path : Text
  pub file_size : ℕ
  pub original_size : ℕ
  pub content_type : Text
  pub hash_blake3 : Text
  pub hash_md5 : Text
  pub metadata : Option Text
  pub is_compressed : Option Bool
  pub is_encrypted : Option Bool
  pub compression_algorithm : Option Text
  pub encryption_algorithm : Option Text
  pub compression_ratio : Option Ratio
  pub upload_time : Option ℕ
  pub last_accessed : Option ℕ
  pub access_count : ℕ
  pub encryption_key_id : Option Text
  pub compression_enabled : Option Bool
  pub encryption_enabled : Option Bool
  pub compression_level : Option ℤ
  pub cache_status : Option Text
  pub last_cache_update : Option ℕ
  pub cache_hits : Option ℕ
  pub cache_priority : Option ℤ
  pub expires_at : Option ℕ

pub record EncryptionKey : Type 0 where
  pub id : ℕ
  pub key_id : Text
  pub key_data : Bytes
  pub algorithm : Text
  pub created_at : Option ℕ
  pub updated_at : Option ℕ
  pub is_active : Option Bool
  pub description : Option Text

pub record StorageStats : Type 0 where
  pub total_files : ℕ
  pub total_size : ℕ
  pub compressed_files : ℕ
  pub encrypted_files : ℕ
  pub compression_ratio : Option Ratio
  pub last_updated : ℕ

pub record FileInfo : Type 0 where
  pub id : ℕ
  pub bucket : Text
  pub key : Text
  pub filename : Text
  pub file_size : ℕ
  pub original_size : ℕ
  pub content_type : Text
  pub hash_blake3 : Text
  pub hash_md5 : Text
  pub metadata : Option Text
  pub is_compressed : Bool
  pub is_encrypted : Bool
  pub compression_algorithm : Option Text
  pub encryption_algorithm : Option Text
  pub compression_ratio : Option Ratio
  pub upload_time : ℕ
  pub last_accessed : Option ℕ
  pub access_count : ℕ
  pub compression_enabled : Bool
  pub encryption_enabled : Bool
  pub encryption_key_id : Option Text
  pub expires_at : Option ℕ

-- `impl From<StoredFile> for FileInfo`; the default time is the Unix epoch.
unfoldable pub file_info : StoredFile → FileInfo
file_info file = record {
  id = file.id;
  bucket = file.bucket;
  key = file.key;
  filename = file.filename;
  file_size = file.file_size;
  original_size = file.original_size;
  content_type = file.content_type;
  hash_blake3 = file.hash_blake3;
  hash_md5 = file.hash_md5;
  metadata = file.metadata;
  is_compressed = unwrap_or file.is_compressed false;
  is_encrypted = unwrap_or file.is_encrypted false;
  compression_algorithm = file.compression_algorithm;
  encryption_algorithm = file.encryption_algorithm;
  compression_ratio = file.compression_ratio;
  upload_time = unwrap_or file.upload_time 0;
  last_accessed = file.last_accessed;
  access_count = file.access_count;
  compression_enabled = unwrap_or file.compression_enabled false;
  encryption_enabled = unwrap_or file.encryption_enabled false;
  encryption_key_id = file.encryption_key_id;
  expires_at = file.expires_at;
}
