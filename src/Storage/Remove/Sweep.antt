-- ===== src/Storage/Remove/Sweep.antt =====
-- The TTL sweep: it leaves what has not expired, and removes what has.
use rust_local_storage_cdn.Prelude.{
  ℕ, Text, text_eq, text_eq_iff, text_eq_refl, ◌∙◌, Bool, true, false, ◌&&◌, ◌||◌, none, some, List,
  [], ◌∷◌, filter, map, ok, Option-cases, Bool-cases, Result-cases, inl, inr, ◌≡◌, refl, arith,
}
use rust_local_storage_cdn.Models.{StoredFile}
use rust_local_storage_cdn.World.{World, Env, IsCalm, select_expired}
use rust_local_storage_cdn.Database.{lookup, is_expired, without, list_expired_files}
use rust_local_storage_cdn.Database.Laws.{is_at_iff, IsUnique}
use rust_local_storage_cdn.Storage.Remove.{
  other_references, delete_row, release, count_ok, delete_file, sweep_loop, sweep_expired_files,
}
use rust_local_storage_cdn.Storage.Remove.Laws.{delete_file-err, delete_file-lookup}

-- Whether a list of keys names this one.
abbrev pub names_key : Text → Text → List (Text × Text) → Bool
names_key b k [] = false
names_key b k ((b', k') ∷ rest) = (text_eq b' b && text_eq k' k) || names_key b k rest

abbrev pub expired_keys : ℕ → List StoredFile → List (Text × Text)
expired_keys now rows = map (λ row. (row.bucket, row.key)) (filter (is_expired now) rows)

absent_unnamed :
    (now : ℕ) (b k : Text) (rows : List StoredFile)
    → lookup b k rows ≡ none
    → names_key b k (expired_keys now rows) ≡ false
unfolding lookup
absent_unnamed now b k [] h = refl
absent_unnamed now b k (row ∷ rows) h = ground (arith, absent_unnamed now b k rows)

-- Of unique rows, the expired keys name exactly those whose row has expired.
names_key-expired_keys :
    (now : ℕ) (b k : Text) (rows : List StoredFile) (r : StoredFile)
    → IsUnique rows
    → lookup b k rows ≡ some r
    → names_key b k (expired_keys now rows) ≡ is_expired now r
unfolding lookup
names_key-expired_keys now b k [] r u h = cc
names_key-expired_keys now b k (row ∷ rows) r u h = ground (
  arith,
  absent_unnamed now row.bucket row.key rows,
  names_key-expired_keys now b k rows r u.1,
  is_at_iff b k row,
)

module _ (env : Env) where
  delete_file-lookup_other :
      (bucket key b k : Text) (w : World)
      → (text_eq bucket b && text_eq key k) ≡ false
      → lookup b k (delete_file env bucket key w).1.files ≡ lookup b k w.files
  delete_file-lookup_other bucket key b k w other =
      elim (Result-cases (delete_file env bucket key w).0) [
        | inl (u, done) ↦ ground (arith, delete_file-lookup env bucket key w b k done)
        | inr (e, failed) ↦ ground (arith, delete_file-err env bucket key w e failed)
      ]

  sweep_loop-lookup :
      (b k : Text) (list : List (Text × Text)) (n : ℕ) (w : World)
      → names_key b k list ≡ false
      → lookup b k (sweep_loop env list n w).1.files ≡ lookup b k w.files
  unfolding sweep_loop
  sweep_loop-lookup b k [] n w h = refl
  sweep_loop-lookup b k ((b', k') ∷ rest) n w h =
      sweep_loop-lookup b k rest (count_ok env (delete_file env b' k' w).0 n)
        (delete_file env b' k' w).1 (ground arith)
      ∙ delete_file-lookup_other b' k' b k w (ground arith)

  -- Where rows are unique by bucket and key: a file without a TTL, or whose TTL has not passed, is
  -- still there after a sweep, whatever else the sweep did or failed to do.
  pub sweep-keeps_unexpired :
      (w : World) (b k : Text) (r : StoredFile)
      → IsUnique w.files
      → lookup b k w.files ≡ some r
      → is_expired w.now r ≡ false
      → lookup b k (sweep_expired_files env w).1.files ≡ some r
  unfolding sweep_expired_files list_expired_files
  sweep-keeps_unexpired w b k r u h fresh = ground (
    arith,
    sweep_loop-lookup b k (expired_keys w.now w.files) 0 w,
    names_key-expired_keys w.now b k w.files r u,
  )

module _ (env : Env) (calm : IsCalm env) where
  delete_row-calm :
      (bucket key : Text) (w : World) (found : StoredFile)
      → lookup bucket key w.files ≡ some found
      → delete_row env bucket key w ≡ (
        ok (found.file_path, other_references found.file_path bucket key w.files),
        record w { files = without bucket key w.files },
      )
  unfolding delete_row
  delete_row-calm bucket key w found h = simp (calm, h)

  delete_file-calm_ok :
      (bucket key : Text) (w : World) (found : StoredFile)
      → lookup bucket key w.files ≡ some found
      → (delete_file env bucket key w).0 ≡ ok tt
  unfolding delete_file release
  delete_file-calm_ok bucket key w found h =
      rw (delete_row-calm bucket key w found h) (ground arith)

  delete_file-calm_absent :
      (bucket key : Text) (w : World)
      → lookup bucket key w.files ≡ none
      → (delete_file env bucket key w).1 ≡ w
  unfolding delete_file delete_row
  delete_file-calm_absent bucket key w h = simp (calm, h)

  -- Without a fault the deleted key is absent, whether it was there or not.
  delete_file-calm :
      (bucket key : Text) (w : World)
      → lookup bucket key (delete_file env bucket key w).1.files ≡ none
  delete_file-calm bucket key w = elim (Option-cases (lookup bucket key w.files)) [
    | inl absent ↦ rw (delete_file-calm_absent bucket key w absent) absent
    | inr (found, h) ↦
        delete_file-lookup env bucket key w bucket key (delete_file-calm_ok bucket key w found h)
        ∙ rw (text_eq_refl bucket, text_eq_refl key)
  ]

  delete_file-stays_absent :
      (bucket key b k : Text) (w : World)
      → lookup b k w.files ≡ none
      → lookup b k (delete_file env bucket key w).1.files ≡ none
  delete_file-stays_absent bucket key b k w h =
      elim (Bool-cases (text_eq bucket b && text_eq key k)) [
        | inl same ↦ ground (arith, text_eq_iff bucket b, text_eq_iff key k, delete_file-calm b k w)
        | inr other ↦ delete_file-lookup_other env bucket key b k w other ∙ h
      ]

  sweep_loop-stays_absent :
      (b k : Text) (list : List (Text × Text)) (n : ℕ) (w : World)
      → lookup b k w.files ≡ none
      → lookup b k (sweep_loop env list n w).1.files ≡ none
  unfolding sweep_loop
  sweep_loop-stays_absent b k [] n w h = h
  sweep_loop-stays_absent b k ((b', k') ∷ rest) n w h =
      sweep_loop-stays_absent b k rest (count_ok env (delete_file env b' k' w).0 n)
        (delete_file env b' k' w).1 (delete_file-stays_absent b' k' b k w h)

  sweep_loop-removes :
      (b k : Text) (list : List (Text × Text)) (n : ℕ) (w : World)
      → names_key b k list ≡ true
      → lookup b k (sweep_loop env list n w).1.files ≡ none
  unfolding sweep_loop
  sweep_loop-removes b k [] n w h = cc
  sweep_loop-removes b k ((b', k') ∷ rest) n w h =
      elim (Bool-cases (text_eq b' b && text_eq k' k)) [
        | inl same ↦
            sweep_loop-stays_absent b k rest (count_ok env (delete_file env b' k' w).0 n)
              (delete_file env b' k' w).1
              (ground (arith, text_eq_iff b' b, text_eq_iff k' k, delete_file-calm b k w))
        | inr other ↦
            sweep_loop-removes b k rest (count_ok env (delete_file env b' k' w).0 n)
              (delete_file env b' k' w).1 (ground arith)
      ]

  -- Where no outside call fails and rows are unique by bucket and key, a sweep removes every row whose
  -- TTL has passed.
  pub sweep-removes_expired :
      (w : World) (b k : Text) (r : StoredFile)
      → IsUnique w.files
      → lookup b k w.files ≡ some r
      → is_expired w.now r ≡ true
      → lookup b k (sweep_expired_files env w).1.files ≡ none
  unfolding sweep_expired_files list_expired_files
  sweep-removes_expired w b k r u h old = ground (
    arith,
    calm select_expired,
    sweep_loop-removes b k (expired_keys w.now w.files) 0 w,
    names_key-expired_keys w.now b k w.files r u,
  )
