-- ===== src/Tests/Samples.antt =====
-- Concrete crates, settings and worlds.
use rust_local_storage_cdn.Prelude.{
  ◌-◌, ◌%◌, ℕ, zero, suc, ◌+◌, Text, Bytes, str, true, false, Option, none, some, [], ◌∷◌, ◌++◌,
  take, drop, length, ltb, text_eq, text_eq_iff, if◌then◌else◌, pos, Result, ok, err, ◌≡◌, refl,
  arith, ◌∙◌, ap, sym,
}
use rust_local_storage_cdn.Codec.{Codec, IsCodec, Stream}
use rust_local_storage_cdn.Crypto.{Aead, IsAead, CryptoManager}
use rust_local_storage_cdn.Config.{Config, CacheBackendKind}
use rust_local_storage_cdn.Models.{StoredFile}
use rust_local_storage_cdn.World.{World, Env, IsCalm, IsSound}
use rust_local_storage_cdn.Storage.Encode.{StorageManager}
use rust_local_storage_cdn.Tests.Json.{to_vec, from_slice, json_round_trip}

-- A codec that shortens a run of four zeros at the front.
abbrev zeros : Bytes
zeros = 0 ∷ 0 ∷ 0 ∷ 0 ∷ []

abbrev squash : Bytes → Bytes
squash content = if text_eq (take 4 content) zeros then 0 ∷ drop 4 content else 1 ∷ content

abbrev unsquash : Bytes → Stream
unsquash [] = record { bytes = []; error = some (str "truncated") }
unsquash (zero ∷ rest) = record { bytes = zeros ++ rest; error = none }
unsquash (suc n ∷ rest) = record { bytes = rest; error = none }

take-drop : (n : ℕ) (xs : Bytes) → take n xs ++ drop n xs ≡ xs
take-drop zero xs = refl
take-drop (suc n) [] = refl
take-drop (suc n) (x ∷ xs) = ap (λ t. x ∷ t) (take-drop n xs)

unsquash-squash :
    (content : Bytes) → unsquash (squash content) ≡ record { bytes = content; error = none }
unsquash-squash content = ground (arith, text_eq_iff (take 4 content) zeros, take-drop 4 content)

ok_eq : {E : Type 0} {a b : Bytes} → Path (Result E Bytes) (ok a) (ok b) → a ≡ b
ok_eq h = cc

abbrev pub codec : Codec
codec = record {
  gzip_encode = λ level content. ok (squash content);
  zstd_encode = λ level content. ok (squash content);
  gzip_decoder = unsquash;
  zstd_decoder = λ z. ok (unsquash z);
  read_size = λ n left. if ltb n left then n else left;
}

pub codec-IsCodec : IsCodec codec
codec-IsCodec = record {
  gzip_law = λ level content out h. sym (ap unsquash (ok_eq h)) ∙ unsquash-squash content;
  zstd_law = λ level content out h. ap ok (sym (ap unsquash (ok_eq h)) ∙ unsquash-squash content);
  read_progress = λ n left h k. ground arith;
  read_buffer = λ n left. ground arith;
  read_left = λ n left. ground arith;
}

-- A cipher that puts one byte in front.
abbrev unseal : Bytes → Result Text Bytes
unseal [] = err (str "no tag")
unseal (b ∷ rest) = ok rest

abbrev pub aead : Aead
aead = record {
  seal = λ alg key nonce content. ok (42 ∷ content);
  unseal = λ alg key nonce out. unseal out;
}

pub aead-IsAead : IsAead aead
aead-IsAead = record { seal_law = λ alg key nonce content out h. ap unseal (sym (ok_eq h)) }

abbrev pub env : Env
env = record {
  fails = λ e. none;
  codec = codec;
  aead = aead;
  blake3 = λ content. str "b3:" ++ content;
  md5 = λ content. str "md5:" ++ content;
  to_vec = to_vec;
  from_slice = from_slice;
  uuid = λ n. 100 + n;
  nonce = λ n. n ∷ 0 ∷ 0 ∷ 0 ∷ 0 ∷ 0 ∷ 0 ∷ 0 ∷ 0 ∷ 0 ∷ 0 ∷ 0 ∷ [];
  random_key = λ n. n ∷ [];
  alphanumeric = λ n. 48 + n % 10;
  like = λ pattern s. text_eq (take (length pattern - 1) pattern) (take (length pattern - 1) s);
  canonical = λ path. path;
}

pub calm : IsCalm env
calm e = refl

pub sound : IsSound env
sound = record {
  codec_law = codec-IsCodec;
  aead_law = aead-IsAead;
  nonce_law = λ n. refl;
  json_law = json_round_trip;
}

abbrev pub crypto : CryptoManager
crypto = record {
  config = record { enabled = true; algorithm = str "aes-gcm"; key = none };
  aes_key = some (str "k");
  chacha_key = none;
}

abbrev pub config : Config
config = record {
  server = record { port = 8080; log_level = str "INFO" };
  database = record {
    host = str "localhost";
    port = 5432;
    database = str "local_storage";
    username = str "postgres";
    password = str "p";
    max_connections = 10;
    url = str "postgres://postgres:p@localhost:5432/local_storage";
  };
  redis = record {
    host = str "redis";
    port = 6379;
    password = none;
    database = 0;
    max_connections = 10;
  };
  cache = record { backend = CacheBackendKind.memory; max_size_mb = 256; ttl_seconds = 3600 };
  storage = record {
    path = str "/s";
    max_file_size = 1073741824;
    default_bucket = str "default";
    enable_deduplication = true;
  };
  crypto = crypto.config;
  compression = record { enabled = true; algorithm = str "zstd"; level = pos 3; min_size = 4 };
  s3 = none;
  download_protection_token = none;
  protected_read_buckets = none;
}

abbrev pub manager : StorageManager
manager = record { config = config; crypto = crypto }

-- Content that is compressed, since it starts with four zeros.
abbrev pub content : Bytes
content = zeros ++ (7 ∷ 8 ∷ [])

abbrev pub empty_world : World
empty_world = record {
  files = [];
  buckets = [];
  keys = [];
  disk = λ path. none;
  cache = λ key. none;
  now = 50;
  drawn = 0;
}

-- Two rows that share their bytes, of which the second has expired.
abbrev pub row_of : (id : ℕ) (bucket key path : Text) → Option ℕ → StoredFile
row_of id bucket key path expires_at = record {
  id = id;
  bucket = bucket;
  key = key;
  filename = key;
  file_path = path;
  file_size = 2;
  original_size = 2;
  content_type = str "text/plain";
  hash_blake3 = str "h";
  hash_md5 = str "m";
  metadata = none;
  is_compressed = some false;
  is_encrypted = some false;
  compression_algorithm = none;
  encryption_algorithm = none;
  compression_ratio = none;
  upload_time = some 1;
  last_accessed = none;
  access_count = 0;
  encryption_key_id = none;
  compression_enabled = some false;
  encryption_enabled = some false;
  compression_level = none;
  cache_status = none;
  last_cache_update = none;
  cache_hits = none;
  cache_priority = none;
  expires_at = expires_at;
}

abbrev pub row_a : StoredFile
row_a = row_of 1 (str "b") (str "a") (str "/s/b/a") none

abbrev pub row_c : StoredFile
row_c = row_of 2 (str "b") (str "c") (str "/s/b/a") (some 40)

abbrev pub shared_world : World
shared_world = record empty_world {
  files = row_a ∷ row_c ∷ [];
  disk = λ path. if text_eq path (str "/s/b/a") then some (1 ∷ 2 ∷ []) else none;
}
