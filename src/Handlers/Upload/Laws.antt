-- ===== src/Handlers/Upload/Laws.antt =====
-- Which uploads are stored.
use rust_local_storage_cdn.Prelude.{
  ◌⊎◌, parse_u64, refl, Result-cases, inl, inr, str, unwrap_or, Text, ◌∙◌, ap, ℕ, zero, suc,
  and_then-eq-ok, ◌≤◌, ◌<◌, Text, Bytes, Option, none, some, length, ℤ, pos, negsuc, Result, ok,
  err, ◌≡◌, arith,
}
use rust_local_storage_cdn.Errors.{StorageError, StorageResult, status}
use rust_local_storage_cdn.Models.{StoredFile, FileInfo, file_info}
use rust_local_storage_cdn.World.{World, Env}
use rust_local_storage_cdn.World.Actions.{continue, pure}
use rust_local_storage_cdn.Storage.Store.{store_file}
use rust_local_storage_cdn.Storage.Encode.{StorageManager}
use rust_local_storage_cdn.Handlers.Upload.{
  upload_options, UploadQuery, check_length, read_body, expiry, checked_upload, upload_file,
}

read_body-ok :
    (max_size : ℕ) (body : Result Text Bytes) (bytes : Bytes)
    → read_body max_size body ≡ ok bytes
    → (body ≡ ok bytes) × (0 < length bytes) × (length bytes ≤ max_size)
unfolding read_body
read_body-ok max_size (err e) bytes h = cc
read_body-ok max_size (ok content) bytes h = ground arith

-- An expiry, if there is one, is later than now.
abbrev pub IsFuture : ℕ → Option ℕ → Type 0
IsFuture now none = Unit
IsFuture now (some t) = now < t

expiry-IsFuture : (now : ℕ) (ttl : Option ℤ) (t : Option ℕ) → expiry now ttl ≡ ok t → IsFuture now t
unfolding expiry
expiry-IsFuture now ttl none h = tt
expiry-IsFuture now none (some t) h = cc
expiry-IsFuture now (some (pos zero)) (some t) h = cc
expiry-IsFuture now (some (pos (suc n))) (some t) h = ground arith
expiry-IsFuture now (some (negsuc n)) (some t) h = cc

-- What passes the checks of an upload is a body that is not empty and not above the limit, and an
-- expiry, if there is one, in the future.
pub checked_upload-bounds :
    (max_size now : ℕ) (query : UploadQuery) (content_length : Option Text)
    (body : Result Text Bytes) (bytes : Bytes) (expires_at : Option ℕ)
    → checked_upload max_size now query content_length body ≡ ok (bytes, expires_at)
    → (body ≡ ok bytes) × (0 < length bytes) × (length bytes ≤ max_size) × IsFuture now expires_at
unfolding checked_upload
checked_upload-bounds max_size now query content_length body bytes expires_at h =
    let (u, declared, h1) = and_then-eq-ok (check_length max_size content_length) _ h in
    let (content, taken, h2) = and_then-eq-ok (read_body max_size body) _ h1 in
    let (t, timed, h3) = and_then-eq-ok (expiry now query.ttl_seconds) _ h2 in
    let same : content ≡ bytes = cc in
    let when : t ≡ expires_at = cc in
    let (whole, some_bytes, few) = read_body-ok max_size body content taken in
    (
      cc,
      rw (← same) some_bytes,
      rw (← same) few,
      expiry-IsFuture now query.ttl_seconds expires_at (timed ∙ ap ok when),
    )

-- A call that ends an action and succeeds.
last-ok :
    {A B : Type 0} (f : A → B) (r : StorageResult A) (v : World) (b : B) (w : World)
    → continue r (λ a. pure (f a)) v ≡ (ok b, w)
    → (a : A) × (b ≡ f a) × ((r ≡ ok a) × (v ≡ w))
last-ok f (ok a) v b w h = (a, cc, (refl, cc))
last-ok f (err e) v b w h = cc

-- What the checks of an upload refuse.
abbrev IsNotPositive : ℤ → Type 0
IsNotPositive (pos zero) = Unit
IsNotPositive (pos (suc n)) = ⊥
IsNotPositive (negsuc n) = Unit

abbrev pub IsRefused : (max : ℕ) → UploadQuery → Option Text → Result Text Bytes → Type 0
IsRefused max query content_length body =
    ((text : Text) × (declared : ℕ) × (content_length ≡ some text)
      × (parse_u64 text ≡ some declared)
      × (max < declared))
    ⊎ ((e : Text) × (body ≡ err e))
    ⊎ ((bytes : Bytes) × (body ≡ ok bytes) × ((length bytes ≡ 0) ⊎ (max < length bytes)))
    ⊎ ((ttl : ℤ) × (query.ttl_seconds ≡ some ttl) × IsNotPositive ttl)

expiry-ok : (now : ℕ) (ttl : ℤ) (t : Option ℕ) → expiry now (some ttl) ≡ ok t → ¬ IsNotPositive ttl
unfolding expiry
expiry-ok now (pos zero) t h bad = cc
expiry-ok now (pos (suc n)) t h bad = bad
expiry-ok now (negsuc n) t h bad = cc

check_length-ok :
    (max declared : ℕ) (text : Text) (u : Unit {0})
    → parse_u64 text ≡ some declared
    → check_length max (some text) ≡ ok u
    → ¬ (max < declared)
unfolding check_length
check_length-ok max declared text u parsed h above = ground (arith, rw parsed at h, above)

fits :
    (max : ℕ) (content bytes : Bytes)
    → content ≡ bytes
    → 0 < length content
    → length content ≤ max
    → ¬ ((length bytes ≡ 0) ⊎ (max < length bytes))
fits max content bytes same filled few (inl empty) = omega (arith, ap length same)
fits max content bytes same filled few (inr above) = omega (arith, ap length same)

checked_upload-accepts :
    (max now : ℕ) (query : UploadQuery) (content_length : Option Text) (body : Result Text Bytes)
    (checked : Bytes × Option ℕ)
    → checked_upload max now query content_length body ≡ ok checked
    → ¬ IsRefused max query content_length body
unfolding checked_upload
checked_upload-accepts max now query content_length body checked h bad =
    let (u, declared, h1) = and_then-eq-ok (check_length max content_length) _ h in
    let (content, taken, h2) = and_then-eq-ok (read_body max body) _ h1 in
    let (t, timed, h3) = and_then-eq-ok (expiry now query.ttl_seconds) _ h2 in
    let (whole, some_bytes, few) = read_body-ok max body content taken in
    elim bad [
      | inl (text, n, there, parsed, above) ↦
          check_length-ok max n text u parsed (rw there at declared) above
      | inr (inl (e, broken)) ↦ cc
      | inr (inr (inl (bytes, is_body, unfit))) ↦
          let same : content ≡ bytes = cc in fits max content bytes same some_bytes few unfit
      | inr (inr (inr (ttl, asks, low))) ↦ expiry-ok now ttl t (rw asks at timed) low
    ]

check_length-status :
    (max : ℕ) (content_length : Option Text) (e : StorageError)
    → check_length max content_length ≡ err e
    → status e ≡ 413
unfolding check_length status
check_length-status max none e h = cc
check_length-status max (some text) e h = ground (arith, h)

read_body-status :
    (max : ℕ) (body : Result Text Bytes) (e : StorageError)
    → read_body max body ≡ err e
    → (status e ≡ 400) ⊎ (status e ≡ 413)
unfolding read_body status
read_body-status max (err x) e h = ground (arith, h)
read_body-status max (ok bytes) e h = ground (arith, h)

expiry-status :
    (now : ℕ) (ttl : Option ℤ) (e : StorageError) → expiry now ttl ≡ err e → status e ≡ 400
unfolding expiry status
expiry-status now none e h = cc
expiry-status now (some (pos zero)) e h = ground (arith, h)
expiry-status now (some (pos (suc n))) e h = cc
expiry-status now (some (negsuc n)) e h = ground (arith, h)

checked_upload-status :
    (max now : ℕ) (query : UploadQuery) (content_length : Option Text) (body : Result Text Bytes)
    (e : StorageError)
    → checked_upload max now query content_length body ≡ err e
    → (status e ≡ 400) ⊎ (status e ≡ 413)
unfolding checked_upload
checked_upload-status max now query content_length body e h =
    elim (Result-cases (check_length max content_length)) [
      | inr (e1, long) ↦
          inr (check_length-status max content_length e (ground (arith, rw long at h)))
      | inl (u, short) ↦ elim (Result-cases (read_body max body)) [
        | inr (e1, unread) ↦ read_body-status max body e (ground (arith, rw (short, unread) at h))
        | inl (bytes, read) ↦ elim (Result-cases (expiry now query.ttl_seconds)) [
          | inr (e1, past) ↦
              inl (
                expiry-status now query.ttl_seconds e (ground (arith, rw (short, read, past) at h)))
          | inl (t, timed) ↦ absurd (ground (arith, rw (short, read, timed) at h))
        ]
      ]
    ]

module _ (env : Env) (m : StorageManager) (bucket : Text) where
  -- An upload that declares a length above the limit, or whose body cannot be read, is empty or is
  -- above the limit, or that asks for a TTL that is not positive, ends with an error of status 400 or
  -- 413, and nothing has changed.
  pub upload_file-refused :
      (query : UploadQuery) (filename content_type content_length : Option Text)
      (body : Result Text Bytes) (w : World)
      → IsRefused m.config.storage.max_file_size query content_length body
      → (e : StorageError) × (upload_file env m bucket query filename content_type content_length
            body w
          ≡ (err e, w))
        × ((status e ≡ 400) ⊎ (status e ≡ 413))
  unfolding upload_file
  upload_file-refused query filename content_type content_length body w bad =
      let max = m.config.storage.max_file_size in
      elim (Result-cases (checked_upload max w.now query content_length body)) [
        | inl (checked, good) ↦
            absurd (checked_upload-accepts max w.now query content_length body checked good bad)
        | inr (e, failed) ↦
            (e, rw failed, checked_upload-status max w.now query content_length body e failed)
      ]

  -- What an upload that succeeds stored.
  pub upload_file-ok :
      (query : UploadQuery) (name : Text) (content_type content_length : Option Text)
      (content : Bytes) (info : FileInfo) (w w' : World)
      → upload_file env m bucket query (some name) content_type content_length (ok content) w
        ≡ (ok info, w')
      → (expires_at : Option ℕ) × (file : StoredFile) × (info ≡ file_info file)
        × (store_file env m bucket name content
              (some (unwrap_or content_type (str "application/octet-stream")))
              (upload_options query expires_at)
              w
            ≡ (ok file, w'))
  unfolding upload_file
  upload_file-ok query name content_type content_length content info w w' h =
      elim (Result-cases
        (checked_upload m.config.storage.max_file_size w.now query content_length (ok content))) [
          | inl (checked, good) ↦
              let (whole, filled, few, future) =
                checked_upload-bounds m.config.storage.max_file_size w.now query content_length
                  (ok content) checked.0 checked.1 good in
              let call =
                store_file env m bucket name content
                  (some (unwrap_or content_type (str "application/octet-stream")))
                  (upload_options query checked.1) in
              let same : checked.0 ≡ content = cc in
              let (file, is_info, (stored, ends)) =
                last-ok file_info (call w).0 (call w).1 info w' (rw (good, same) at h) in
              (checked.1, file, is_info, cc)
          | inr (e, bad) ↦ let failed = rw bad at h in cc
        ]
