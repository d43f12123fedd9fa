-- ===== src/Storage/Fetch.antt =====
-- The reads of local-storage/src/storage.rs: `get_file`, the two range reads and `get_file_info`.
pub mod Laws
pub mod RoundTrip
pub mod RangeRead
pub mod Expiry
use rust_local_storage_cdn.Prelude.{
  ℕ, ◌+◌, ◌-◌, Text, str, Bytes, Bool, false, ◌||◌, not, Option, none, some, length, take, drop,
  ltb, leb, ◌==◌, if◌then◌else◌, Result, ok, err, unwrap_or,
}
use Prim.Native.Nat.{min}
use rust_local_storage_cdn.Errors.{StorageError, StorageResult}
use rust_local_storage_cdn.Models.{StoredFile, FileInfo, file_info}
use rust_local_storage_cdn.World.{Env, Fault}
use rust_local_storage_cdn.World.Actions.{
  Action, pure, raise, lift, ◌>>=◌, ◌>>◌, gets, ignore, attempt,
}
use rust_local_storage_cdn.Compression.Range.{decompress_range}
use rust_local_storage_cdn.Database
use rust_local_storage_cdn.Database.{update_access}
use rust_local_storage_cdn.Cache.{
  get_file_metadata, set_file_metadata, get_file_content, set_file_content,
}
use rust_local_storage_cdn.Storage.Disk.{read_disk}
use rust_local_storage_cdn.Storage.Encode.{StorageManager, decode_content}
use rust_local_storage_cdn.Storage.Remove.{delete_file}

-- `expires_at <= Utc::now()`
abbrev pub has_expired : Option ℕ → ℕ → Bool
has_expired none now = false
has_expired (some t) now = leb t now

module _ (env : Env) (m : StorageManager) (bucket key : Text) where
  unfoldable pub row_from_database : Action StoredFile
  row_from_database = do
    file ← Database.get_file env bucket key
    ignore (set_file_metadata env bucket key file)
    pure file

  unfoldable pub cached_or_row : StorageResult (Option StoredFile) → Action StoredFile
  cached_or_row (ok (some file)) = pure file
  cached_or_row _ = row_from_database

  -- The row, from the cache if it is there and from the database if not.
  unfoldable pub load_row : Action StoredFile
  load_row = do cached ← attempt (get_file_metadata env bucket key); cached_or_row cached

  abbrev pub gone : {A : Type 0} → Action A
  gone = do ignore (delete_file env bucket key); raise (StorageError.not_found bucket key)

  -- An expired row is deleted and counts as absent.
  unfoldable pub unless_expired : StoredFile → Action (Unit {0})
  unless_expired file = do
    now ← gets (λ w. w.now)
    if has_expired file.expires_at now then gone else pure tt

  -- A row without its file on disk is deleted too; another read error is passed on.
  unfoldable pub read_or_gone : Result Fault Bytes → Action Bytes
  read_or_gone (ok content) = do ignore (set_file_content env bucket key content); pure content
  read_or_gone (err f) = if f.is_missing_file then gone else raise (StorageError.io f.message)

  unfoldable pub cached_or_disk : Text → StorageResult (Option Bytes) → Action Bytes
  cached_or_disk path (ok (some content)) = pure content
  cached_or_disk path _ = do outcome ← read_disk env path; read_or_gone outcome

  -- The stored bytes, from the cache if they are there and from the row's path if not.
  unfoldable pub load_bytes : Text → Action Bytes
  load_bytes path = do
    cached ← attempt (get_file_content env bucket key)
    cached_or_disk path cached

  unfoldable pub get_file : Action (Bytes × Option Text)
  get_file = do
    file ← load_row
    unless_expired file
    raw ← load_bytes file.file_path
    content ← decode_content env m file raw
    ignore (update_access env file.id)
    pure (content, some file.content_type)

  -- What a range read returns: the bytes, the content type and the total length.
  abbrev pub Partial : Type 0
  Partial = Option (Bytes × Text × ℕ)

  abbrev pub clamped_end : ℕ → ℕ → ℕ
  clamped_end total end = min end (total - 1)

  -- `read_exact` past the end of the file is an error.
  abbrev pub exact_span : (start len : ℕ) → Bytes → Action Bytes
  exact_span start len content =
      if leb (start + len) (length content)
      then pure (take len (drop start content))
      else raise (StorageError.io (str "failed to fill whole buffer"))

  abbrev span_of : (start len : ℕ) → Result Fault Bytes → Action Bytes
  span_of start len (err f) = raise (StorageError.io f.message)
  span_of start len (ok content) = exact_span start len content

  -- `File::open`, `seek` and `read_exact`
  unfoldable pub read_span : Text → (start len : ℕ) → Action Bytes
  read_span path start len = do outcome ← read_disk env path; span_of start len outcome

  unfoldable pub plain_span : StoredFile → (start end : ℕ) → Action Partial
  plain_span file start end = do
    span ← read_span file.file_path start (clamped_end file.file_size end - start + 1)
    ignore (update_access env file.id)
    pure (some (span, file.content_type, file.file_size))

  abbrev pub empty_range : ℕ → (start end : ℕ) → Bool
  empty_range total start end = total == 0 || ltb (clamped_end total end) start

  unfoldable pub get_file_range_if_plain : (start end : ℕ) → Action Partial
  get_file_range_if_plain start end = do
    file ← load_row
    let coded = unwrap_or file.is_compressed false || unwrap_or file.is_encrypted false
    if coded || empty_range file.file_size start end then pure none else plain_span file start end

  -- The bytes on disk, for `std::fs::read(..)?`.
  abbrev pub bytes_or_error : Result Fault Bytes → Action Bytes
  bytes_or_error (err f) = raise (StorageError.io f.message)
  bytes_or_error (ok content) = pure content

  unfoldable pub finish_range : StoredFile → Option Bytes → Action Partial
  finish_range file none = pure none
  finish_range file (some span) = do
    ignore (update_access env file.id)
    pure (some (span, file.content_type, file.original_size))

  unfoldable pub compressed_span : StoredFile → (start end : ℕ) → Action Partial
  compressed_span file start end = do
    outcome ← read_disk env file.file_path
    squeezed ← bytes_or_error outcome
    decoded ←
        lift (
          decompress_range env.codec squeezed start
            (clamped_end file.original_size end - start + 1))
    finish_range file decoded

  unfoldable pub get_compressed_file_range : (start end : ℕ) → Action Partial
  get_compressed_file_range start end = do
    file ← load_row
    let unfit = unwrap_or file.is_encrypted false || not (unwrap_or file.is_compressed false)
    if unfit || empty_range file.original_size start end
        then pure none
        else compressed_span file start end

  unfoldable pub get_file_info : Action FileInfo
  get_file_info = do
    file ← Database.get_file env bucket key
    unless_expired file
    pure (file_info file)
