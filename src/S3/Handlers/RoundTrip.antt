-- ===== src/S3/Handlers/RoundTrip.antt =====
-- An object that was put through the S3-compatible API is what is got.
use rust_local_storage_cdn.Prelude.{
  ℕ, Text, Bytes, str, text_eq, true, false, Option, none, some, List, [], ◌∷◌, find, map, ltb, ok,
  ◌≡◌, ◌⊎◌, inl, inr, refl, ap, sym, ◌∙◌, Bool-cases, ◌==◌,
}
use rust_local_storage_cdn.Errors.{StorageResult}
use rust_local_storage_cdn.Models.{StoredFile, FileInfo, file_info}
use rust_local_storage_cdn.World.{World, Env, IsCalm, IsSound}
use rust_local_storage_cdn.Database
use rust_local_storage_cdn.Database.{lookup, upsert, touch, is_at, overwrite, inserted}
use rust_local_storage_cdn.Database.Laws.{lookup-upsert, placed, is_at_iff}
use rust_local_storage_cdn.Cache.{content_key, max_cache_size}
use rust_local_storage_cdn.Storage.Encode.{StorageManager, default_options}
use rust_local_storage_cdn.Storage.Store.{store_file, stored_row}
use rust_local_storage_cdn.Storage.Store.New.{store_file-IsStored}
use rust_local_storage_cdn.Storage.Fetch.{get_file, get_file_info, unless_expired}
use rust_local_storage_cdn.Storage.Fetch.RoundTrip.{get_file-store_file}
use rust_local_storage_cdn.Machine.Frames.{ReadTables, get_file-ReadTables}
use rust_local_storage_cdn.Machine.Frames.Saved.{StoreOutcome, store_file-StoreOutcome}
use rust_local_storage_cdn.Handlers.Download.{AppState}
use rust_local_storage_cdn.S3.Auth.{Hashes, Request}
use rust_local_storage_cdn.S3.Xml.{Web}
use rust_local_storage_cdn.S3.Errors.{S3Result}
use rust_local_storage_cdn.S3.Actions.{S3Action, converted, pure, ◌>>=◌}
use rust_local_storage_cdn.World.Actions.{Action}
use rust_local_storage_cdn.S3.Handlers.{Response, verify, etag, header_response}
use rust_local_storage_cdn.S3.Handlers.Objects.{
  put_object, copy_or_put, put_content, object_expiry, get_object, object_response,
}

-- A row of the key that never expires, with this MD5 sum.
abbrev Lasting : Text → Text → Text → List StoredFile → Type 0
Lasting bucket key md5 rows =
    (row : StoredFile) × (lookup bucket key rows ≡ some row)
    × (row.expires_at ≡ none)
    × (row.hash_md5 ≡ md5)

touch-fields :
    (bucket key : Text) (id now : ℕ) (r : StoredFile)
    → (is_at bucket key (touch id now r) ≡ is_at bucket key r)
      × ((touch id now r).expires_at ≡ r.expires_at)
      × ((touch id now r).hash_md5 ≡ r.hash_md5)
touch-fields bucket key id now r = elim (Bool-cases (r.id == id)) [
  | inl hit ↦ rw hit (refl, refl, refl)
  | inr miss ↦ rw miss (refl, refl, refl)
]

found_first : (r row : StoredFile) → Path (Option StoredFile) (some r) (some row) → row ≡ r
found_first r row h = cc

placed-fields :
    (file : StoredFile) (old : Option StoredFile)
    → ((placed file old).expires_at ≡ file.expires_at)
      × ((placed file old).hash_md5 ≡ file.hash_md5)
unfolding overwrite inserted
placed-fields file none = (refl, refl)
placed-fields file (some old) = (refl, refl)

module _ (bucket key : Text) where
  touch-Lasting :
      (md5 : Text) (id now : ℕ) (rows : List StoredFile)
      → Lasting bucket key md5 rows
      → Lasting bucket key md5 (map (touch id now) rows)
  unfolding lookup
  touch-Lasting md5 id now [] (row, there, lasts, sum) = cc
  touch-Lasting md5 id now (r ∷ rows) (row, there, lasts, sum) =
      let (same, expiry, hash) = touch-fields bucket key id now r in
      elim (Bool-cases (is_at bucket key r)) [
        | inl hit ↦
            let is_row = found_first r row (rw hit at there) in
            (
              touch id now r,
              rw (same, hit),
              expiry ∙ ap (λ (f : StoredFile). f.expires_at) (sym is_row) ∙ lasts,
              hash ∙ ap (λ (f : StoredFile). f.hash_md5) (sym is_row) ∙ sum,
            )
        | inr miss ↦
            let (row', there', lasts', sum') =
              touch-Lasting md5 id now rows (row, rw miss at there, lasts, sum) in
            (row', rw (same, miss) there', lasts', sum')
      ]

  upsert-Lasting :
      (file : StoredFile) (rows : List StoredFile)
      → file.bucket ≡ bucket
      → file.key ≡ key
      → file.expires_at ≡ none
      → Lasting bucket key file.hash_md5 (upsert file rows)
  upsert-Lasting file rows at_bucket at_key lasts =
      let old = lookup file.bucket file.key rows in
      let (expiry, hash) = placed-fields file old in
      (
        placed file old,
        rw (lookup-upsert bucket key file rows, (is_at_iff bucket key file).1 (at_bucket, at_key)),
        expiry ∙ lasts,
        hash,
      )

  info-Lasting :
      (env : Env) (calm : IsCalm env) (m : StorageManager) (md5 : Text) (w : World)
      → Lasting bucket key md5 w.files
      → (info : FileInfo) × (get_file_info env m bucket key w ≡ (ok info, w))
        × (info.hash_md5 ≡ md5)
  unfolding get_file_info unless_expired Database.get_file file_info
  info-Lasting env calm m md5 w (row, there, lasts, sum) =
      (file_info row, simp (calm, there, lasts), sum)

  read-Lasting :
      {A : Type 0} (md5 : Text) (a : A) (w w' : World)
      → Lasting bucket key md5 w.files
      → ReadTables {A = A} bucket key w (ok a) w'
      → Lasting bucket key md5 w'.files
  read-Lasting md5 a w w' lasting (inl f, b) = rw f lasting
  read-Lasting md5 a w w' lasting (inr (id, now, f), b) =
      rw f (touch-Lasting md5 id now w.files lasting)

module _ (env : Env) (m : StorageManager) (bucket key : Text) where
  stored-Lasting :
      (hash : Text) (file : StoredFile) (w w' : World)
      → find (λ row. text_eq row.hash_blake3 hash) w.files ≡ none
      → file.expires_at ≡ none
      → StoreOutcome env m bucket key hash w (ok file) w'
      → Lasting bucket key file.hash_md5 w'.files
  stored-Lasting hash file w w' fresh lasts (inl (at_bucket, at_key, has_hash, f), grown, there) =
      rw f (upsert-Lasting bucket key file w.files at_bucket at_key lasts)
  stored-Lasting hash file w w' fresh lasts (inr (here, found, f), grown, there) = cc

  -- Without a TTL the row of new content never expires.
  store_file-lasts :
      (calm : IsCalm env) (sound : IsSound env) (content : Bytes) (content_type : Option Text)
      (file : StoredFile) (w w' : World)
      → find (λ row. text_eq row.hash_blake3 (env.blake3 content)) w.files ≡ none
      → store_file env m bucket key content content_type default_options w ≡ (ok file, w')
      → file.expires_at ≡ none
  unfolding stored_row
  store_file-lasts calm sound content content_type file w w' fresh h =
      let s =
        store_file-IsStored env calm sound m bucket key content content_type default_options file w
          w' fresh h in
      ap (λ (f : StoredFile). f.expires_at) s.is_row

  -- The row of new content has the MD5 sum of the content.
  store_file-sum :
      (calm : IsCalm env) (sound : IsSound env) (content : Bytes) (content_type : Option Text)
      (file : StoredFile) (w w' : World)
      → find (λ row. text_eq row.hash_blake3 (env.blake3 content)) w.files ≡ none
      → store_file env m bucket key content content_type default_options w ≡ (ok file, w')
      → file.hash_md5 ≡ env.md5 content
  unfolding stored_row
  store_file-sum calm sound content content_type file w w' fresh h =
      let s =
        store_file-IsStored env calm sound m bucket key content content_type default_options file w
          w' fresh h in
      ap (λ (f : StoredFile). f.hash_md5) s.is_row

tagged :
    (web : Web) (sum md5 : Text)
    → sum ≡ md5
    → web.header_value (etag md5) ≡ true
    → header_response web (str "etag") (etag sum)
      ≡ record { status = 200; headers = (str "etag", etag md5) ∷ []; body = [] }
tagged web sum md5 same good = rw (same, good) refl

-- A handler goes on with the value of a call that succeeds.
after_call :
    {A B : Type 0} (m : Action A) (f : A → S3Action B) (w : World) (a : A) (w' : World)
    → m w ≡ (ok a, w')
    → (converted m >>= f) w ≡ f a w'
after_call {A} {B} m f w a w' h =
    ap (λ (x : StorageResult A × World). (converted (λ _. x) >>= f) w) h

-- Where no outside call fails and the crates keep their promises: an accepted PutObject without a copy
-- source and a TTL, of content that no row holds yet and that the storage layer stores, answers 200 with
-- the MD5 sum of the content as its tag, if that may stand in a header; and an accepted GetObject of the
-- key at any later time answers 200 with the content, the type of the row and information with that
-- sum. If the content was compressed, the settings have compression enabled; and the stored bytes fit
-- the cache, or no content was cached under the key before.
pub get_object-put_object :
    (env : Env) (calm : IsCalm env) (sound : IsSound env) (h : Hashes) (web : Web)
    (state : AppState) (r r2 : Request) (bucket key : Text) (file : StoredFile) (w w' : World)
    (later : ℕ)
    → verify h state r w ≡ (ok tt, w)
    → r.headers (str "x-amz-copy-source") ≡ none
    → r.headers (str "x-ttl-seconds") ≡ none
    → find (λ row. text_eq row.hash_blake3 (env.blake3 r.body)) w.files ≡ none
    → store_file env state.storage bucket key r.body
        (r.headers (str "content-type"))
        default_options
        w
      ≡ (ok file, w')
    → (file.is_compressed ≡ some true → state.storage.config.compression.enabled ≡ true)
    → ((ltb max_cache_size file.file_size ≡ false) ⊎ (w.cache (content_key bucket key) ≡ none))
    → verify h state r2 (record w' { now = later }) ≡ (ok tt, record w' { now = later })
    → web.header_value (etag (env.md5 r.body)) ≡ true
    → (put_object env h web state r bucket key w ≡ (
      ok (record { status = 200; headers = (str "etag", etag (env.md5 r.body)) ∷ []; body = [] }),
      w',
    ))
      × ((info : FileInfo) × ((get_object env h web state r2 bucket key
              (record w' { now = later })).0
            ≡ ok (object_response web r.body (some file.content_type) info))
          × (info.hash_md5 ≡ env.md5 r.body))
unfolding put_object copy_or_put put_content object_expiry get_object
get_object-put_object env calm sound h web state r r2 bucket key file w w' later accepted plain
      permanent fresh stored on room accepted2 printable =
    let content_type = r.headers (str "content-type") in
    let m = state.storage in
    let later_world = record w' { now = later } in
    let sum =
      store_file-sum env m bucket key calm sound r.body content_type file w w' fresh stored in
    let lasts =
      store_file-lasts env m bucket key calm sound r.body content_type file w w' fresh stored in
    let content =
      get_file-store_file env calm sound m bucket key r.body content_type default_options file w w'
        later fresh stored on room (rw lasts refl) in
    let outcome : StoreOutcome env m bucket key (env.blake3 r.body) w (ok file) w' =
      rw stored at
        (store_file-StoreOutcome env m bucket key r.body content_type default_options w) in
    let step : ReadTables {A = Bytes × Option Text} bucket key later_world
        (ok (r.body, some file.content_type)) (get_file env m bucket key later_world).1 =
      rw content at (get_file-ReadTables env m bucket key later_world) in
    let lasting =
      read-Lasting bucket key {A = Bytes × Option Text} file.hash_md5
        (r.body, some file.content_type) later_world (get_file env m bucket key later_world).1
        (stored-Lasting env m bucket key (env.blake3 r.body) file w w' fresh lasts outcome) step in
    let (info, known, same) =
      info-Lasting bucket key env calm m file.hash_md5 (get_file env m bucket key later_world).1
        lasting in
    let reached = (get_file env m bucket key later_world).1 in
    let read : get_file env m bucket key later_world
        ≡ (ok (r.body, some file.content_type), reached) =
      ap (λ (x : StorageResult (Bytes × Option Text)). (x, reached)) content in
    let answer = λ (c : Bytes × Option Text). converted (get_file_info env m bucket key) >>= λ info.
    pure (object_response web c.0 c.1 info) in
    (
      rw (accepted, plain, permanent)
            (after_call (store_file env m bucket key r.body content_type default_options) _ w file
              w' stored)
          ∙ ap (λ (x : Response). (ok x, w'))
              (tagged web file.hash_md5 (env.md5 r.body) sum printable),
      (
        info,
        rw accepted2 (
            ap (λ (x : S3Result Response × World). x.0)
              (after_call (get_file env m bucket key) answer later_world
                  (r.body, some file.content_type) reached read
                ∙ after_call (get_file_info env m bucket key) _ reached info reached known)),
        same ∙ sum,
      ),
    )
