-- ===== src/S3/Handlers/Deletes.antt =====
-- What deleting objects through the S3-compatible API does to the store.
use rust_local_storage_cdn.Prelude.{
  true, Text, text_eq, text_eq_iff, ◌&&◌, Option, none, some, List, [], ◌∷◌, ◌++◌, if◌then◌else◌,
  ok, err, ◌≡◌, ◌⊎◌, inl, inr, arith, refl, Result-cases, Bool-cases, length, length-append, ◌+◌, ℕ,
  str,
}
use rust_local_storage_cdn.Errors.{StorageError, StorageResult}
use rust_local_storage_cdn.World.{World, Env}
use rust_local_storage_cdn.Database.{lookup}
use rust_local_storage_cdn.Storage.Remove.{delete_file, delete_row, release}
use rust_local_storage_cdn.Storage.Remove.Laws.{delete_file-lookup, delete_file-err}
use rust_local_storage_cdn.Handlers.Download.{AppState}
use rust_local_storage_cdn.S3.Auth.{Hashes, Request}
use rust_local_storage_cdn.S3.Xml.{Web, Document, DeletedEntry, DeleteRequest, ObjectIdentifier}
use rust_local_storage_cdn.S3.Handlers.{verify, xml_response}
use rust_local_storage_cdn.S3.Handlers.Objects.{is_done}
use rust_local_storage_cdn.S3.Handlers.Batch.{
  delete_loop, record_outcome, Entries, parse_delete, delete_result, bucket_post,
}

module _ (env : Env) (bucket key : Text) (w : World) where
  -- Only a key that is not there is reported as not found.
  delete_file-not_found :
      (b k : Text)
      → (delete_file env bucket key w).0 ≡ err (StorageError.not_found b k)
      → lookup bucket key w.files ≡ none
  unfolding delete_file delete_row release
  delete_file-not_found b k h = ground arith

is_done-cases :
    (r : StorageResult (Unit {0}))
    → is_done r ≡ true
    → (r ≡ ok tt) ⊎ ((b : Text) × (k : Text) × (r ≡ err (StorageError.not_found b k)))
unfolding is_done
is_done-cases (ok u) h = inl refl
is_done-cases (err (StorageError.not_found b k)) h = inr (b, k, refl)
is_done-cases (err e) h = cc

module _ (env : Env) (bucket key : Text) (w : World) where
  -- When a deletion counts as done, the key is absent and every other key shows what it did.
  delete_file-is_done :
      is_done (delete_file env bucket key w).0 ≡ true
      → (b k : Text)
      → lookup b k (delete_file env bucket key w).1.files
        ≡ (if text_eq bucket b && text_eq key k then none else lookup b k w.files)
  delete_file-is_done h b k = elim (is_done-cases (delete_file env bucket key w).0 h) [
    | inl good ↦ delete_file-lookup env bucket key w b k good
    | inr (b', k', e) ↦ rw (delete_file-err env bucket key w _ e) (
        ground (
          arith,
          delete_file-not_found env bucket key w b' k' e,
          text_eq_iff bucket b,
          text_eq_iff key k,
        ))
  ]

  -- What is absent stays absent, whatever the outcome.
  delete_file-none :
      (k : Text)
      → lookup bucket k w.files ≡ none
      → lookup bucket k (delete_file env bucket key w).1.files ≡ none
  delete_file-none k h = elim (Result-cases (delete_file env bucket key w).0) [
    | inl (u, good) ↦ rw (delete_file-lookup env bucket key w bucket k good, h) (ground arith)
    | inr (e, bad) ↦ rw (delete_file-err env bucket key w e bad) h
  ]

-- Every key of the list is absent.
abbrev pub AllAbsent : Text → World → List DeletedEntry → Type 0
AllAbsent bucket w [] = Unit
AllAbsent bucket w (d ∷ ds) = (lookup bucket d.key w.files ≡ none) × AllAbsent bucket w ds

AllAbsent-snoc :
    (bucket : Text) (w : World) (ds : List DeletedEntry) (d : DeletedEntry)
    → AllAbsent bucket w ds
    → lookup bucket d.key w.files ≡ none
    → AllAbsent bucket w (ds ++ d ∷ [])
AllAbsent-snoc bucket w [] d h e = (e, tt)
AllAbsent-snoc bucket w (x ∷ ds) d (a, h) e = (a, AllAbsent-snoc bucket w ds d h e)

module _ (env : Env) (bucket : Text) where
  AllAbsent-delete :
      (key : Text) (w : World) (ds : List DeletedEntry)
      → AllAbsent bucket w ds
      → AllAbsent bucket (delete_file env bucket key w).1 ds
  AllAbsent-delete key w [] h = tt
  AllAbsent-delete key w (d ∷ ds) (a, h) =
      (delete_file-none env bucket key w d.key a, AllAbsent-delete key w ds h)

  AllAbsent-record :
      (key : Text) (w : World) (entries : Entries)
      → AllAbsent bucket w entries.0
      → AllAbsent bucket
          (delete_file env bucket key w).1
          (record_outcome key (delete_file env bucket key w).0 entries).0
  unfolding record_outcome
  AllAbsent-record key w entries h = elim (Bool-cases (is_done (delete_file env bucket key w).0)) [
    | inl done ↦ rw done (
        AllAbsent-snoc bucket (delete_file env bucket key w).1 entries.0 (record { key = key })
          (AllAbsent-delete key w entries.0 h)
          (rw (delete_file-is_done env bucket key w done bucket key)
            (ground (arith, text_eq_iff bucket bucket, text_eq_iff key key))))
    | inr failed ↦ rw failed (AllAbsent-delete key w entries.0 h)
  ]

  abbrev size : Entries → ℕ
  size (deleted, errors) = length deleted + length errors

  record_outcome-size :
      (key : Text) (result : StorageResult (Unit {0})) (entries : Entries)
      → size (record_outcome key result entries) ≡ 1 + size entries
  unfolding record_outcome is_done
  record_outcome-size key (ok u) (deleted, errors) = rw (length-append deleted) (omega arith)
  record_outcome-size key (err e) (deleted, errors) = elim (Bool-cases (is_done (err e))) [
    | inl done ↦ rw (done, length-append deleted) (omega arith)
    | inr failed ↦ rw (failed, length-append errors) (omega arith)
  ]

  delete_loop-AllAbsent :
      (objects : List ObjectIdentifier) (entries : Entries) (w : World)
      → AllAbsent bucket w entries.0
      → (final : Entries) × (w' : World) × (delete_loop env bucket objects entries w
          ≡ (ok final, w'))
        × (size final ≡ length objects + size entries)
        × AllAbsent bucket w' final.0
  unfolding delete_loop
  delete_loop-AllAbsent [] entries w h = (entries, w, refl, omega arith, h)
  delete_loop-AllAbsent (o ∷ rest) entries w h =
      let (final, w', run, sizes, gone) =
        delete_loop-AllAbsent rest (record_outcome o.key (delete_file env bucket o.key w).0 entries)
          (delete_file env bucket o.key w).1 (AllAbsent-record o.key w entries h) in
      (
        final,
        w',
        run,
        rw (sizes, record_outcome-size o.key (delete_file env bucket o.key w).0 entries)
            (omega arith),
        gone,
      )

  -- An accepted batch deletion always answers: each requested key is reported once, as deleted or as
  -- an error, and every key that is reported as deleted is absent.
  pub bucket_post-AllAbsent :
      (h : Hashes) (web : Web) (state : AppState) (r : Request) (query : Text → Option Text)
      (w : World) (v : Text) (request : DeleteRequest)
      → verify h state r w ≡ (ok tt, w)
      → query (str "delete") ≡ some v
      → parse_delete web r ≡ ok request
      → (final : Entries) × (w' : World) × (bucket_post env bucket h web state r query w
          ≡ (ok (xml_response web (Document.delete_result (delete_result final))), w'))
        × (length final.0 + length final.1 ≡ length request.object)
        × AllAbsent bucket w' final.0
  unfolding bucket_post
  bucket_post-AllAbsent h web state r query w v request accepted asked parsed =
      let (final, w', run, sizes, gone) = delete_loop-AllAbsent request.object ([], []) w tt in
      (final, w', rw (accepted, asked, parsed, run), rw sizes (omega arith), gone)
