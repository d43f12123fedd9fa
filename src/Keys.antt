-- ===== src/Keys.antt =====
-- local-storage/src/encryption_keys.rs: `EncryptionKeyManager`, the keys kept in the database.
use rust_local_storage_cdn.Prelude.{
  ℕ, zero, suc, ◌+◌, Text, Bytes, str, text_eq, Bool, true, false, ◌&&◌, not, Option, none, some,
  List, [], ◌∷◌, ◌++◌, map, filter, find, length, leb, ◌==◌, if◌then◌else◌, ok, err, unwrap_or,
}
use rust_local_storage_cdn.Errors.{StorageError, StorageResult}
use rust_local_storage_cdn.Models.{StoredFile, EncryptionKey}
use rust_local_storage_cdn.Database.{newest_first}
use rust_local_storage_cdn.Crypto.{aes_name, chacha_name}
use rust_local_storage_cdn.World.{
  Env, select_key, insert_key, update_key, select_keys, select_files,
}
use rust_local_storage_cdn.World.Actions.{
  Action, pure, raise, ◌>>=◌, ◌>>◌, gets, modify, database_call,
}

-- WHERE key_id = $1 AND is_active = true; an unknown flag is not true
abbrev pub is_active_key : Text → EncryptionKey → Bool
is_active_key key_id key = text_eq key.key_id key_id && unwrap_or key.is_active false

abbrev pub unknown_key : Text → StorageError
unknown_key key_id =
    StorageError.validation (str "Unknown or inactive encryption_key_id: " ++ key_id)

abbrev pub or_unknown : Text → Option EncryptionKey → Action EncryptionKey
or_unknown key_id none = raise (unknown_key key_id)
or_unknown key_id (some key) = pure key

abbrev pub deactivated : Text → ℕ → EncryptionKey → EncryptionKey
deactivated key_id now key =
    if text_eq key.key_id key_id
    then record key { is_active = some false; updated_at = some now }
    else key

-- ORDER BY created_at DESC
insert_by_age : EncryptionKey → List EncryptionKey → List EncryptionKey
insert_by_age key [] = key ∷ []
insert_by_age key (k ∷ ks) =
    let later = k ∷ insert_by_age key ks in
    if leb (unwrap_or k.created_at 0) (unwrap_or key.created_at 0) then key ∷ k ∷ ks else later

unfoldable pub newest_keys : List EncryptionKey → List EncryptionKey
unfolding insert_by_age
newest_keys [] = []
newest_keys (k ∷ ks) = insert_by_age k (newest_keys ks)

abbrev with_key_id : ℕ → Option Text → StoredFile → StoredFile
with_key_id id key_id row = if row.id == id then record row { encryption_key_id = key_id } else row

abbrev has_text : Text → Option Text → Bool
has_text key_id none = false
has_text key_id (some k) = text_eq k key_id

-- NULL equals no id
abbrev pub has_key_id : Text → StoredFile → Bool
has_key_id key_id row = has_text key_id row.encryption_key_id

-- As many samples, from the given draw on.
unfoldable pub sample_characters : Env → ℕ → ℕ → Text
sample_characters env zero drawn = []
sample_characters env (suc n) drawn = env.alphanumeric drawn ∷ sample_characters env n (suc drawn)

module _ (env : Env) where
  unfoldable pub generate_key_id : Action Text
  generate_key_id w = (ok (sample_characters env 32 w.drawn), record w { drawn = w.drawn + 32 })

  unfoldable pub get_key : Text → Action EncryptionKey
  get_key key_id = do
    database_call env (select_key key_id)
    found ← gets (λ w. find (is_active_key key_id) w.keys)
    or_unknown key_id found

  -- The serial id is one past the number of rows; a new key is active.
  unfoldable pub create_key : Text → Bytes → Text → Option Text → Action EncryptionKey
  create_key key_id key_data algorithm description = do
    database_call env (insert_key key_id)
    key ← gets (λ w. record {
      id = length w.keys + 1;
      key_id = key_id;
      key_data = key_data;
      algorithm = algorithm;
      created_at = some w.now;
      updated_at = some w.now;
      is_active = some true;
      description = description;
    })
    modify (λ w. record w { keys = w.keys ++ key ∷ [] })
    pure key

  unfoldable pub list_keys : Action (List EncryptionKey)
  list_keys = do
    database_call env select_keys
    gets (λ w. newest_keys (filter (λ k. unwrap_or k.is_active false) w.keys))

  unfoldable pub deactivate_key : Text → Action (Unit {0})
  deactivate_key key_id = do
    database_call env (update_key key_id)
    modify (λ w. record w { keys = map (deactivated key_id w.now) w.keys })

  abbrev key_of_row : Option Text → Action (Option EncryptionKey)
  key_of_row none = pure none
  key_of_row (some key_id) = do key ← get_key key_id; pure (some key)

  abbrev key_of_file : Option StoredFile → Action (Option EncryptionKey)
  key_of_file none = raise (StorageError.not_found (str "unknown") (str "unknown"))
  key_of_file (some file) = key_of_row file.encryption_key_id

  unfoldable pub get_file_key : ℕ → Action (Option EncryptionKey)
  get_file_key file_id = do
    database_call env select_files
    found ← gets (λ w. find (λ row. row.id == file_id) w.files)
    key_of_file found

  unfoldable pub update_file_key : ℕ → Option Text → Action (Unit {0})
  update_file_key file_id key_id = do
    database_call env select_files
    modify (λ w. record w { files = map (with_key_id file_id key_id) w.files })

  -- SELECT * FROM files WHERE encryption_key_id = $1 ORDER BY upload_time DESC
  unfoldable pub get_files_with_key : Text → Action (List StoredFile)
  get_files_with_key key_id = do
    database_call env select_files
    gets (λ w. newest_first (filter (has_key_id key_id) w.files))

unfoldable pub validate_key_format : Bytes → Text → StorageResult (Unit {0})
validate_key_format key_data algorithm =
    if text_eq algorithm aes_name
    then if not (length key_data == 32)
      then err (StorageError.validation (str "AES-GCM requires 32-byte key"))
      else ok tt
    else if text_eq algorithm chacha_name
    then if not (length key_data == 32)
      then err (StorageError.validation (str "ChaCha20-Poly1305 requires 32-byte key"))
      else ok tt
    else err (StorageError.validation (str "Unsupported encryption algorithm: " ++ algorithm))
