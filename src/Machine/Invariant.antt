-- ===== src/Machine/Invariant.antt =====
-- The tables stay consistent in every state that the storage layer can reach.
use rust_local_storage_cdn.Prelude.{
  ℕ, Text, List, ok, err, ◌≡◌, inl, inr, refl, [], ◌∷◌, Option-cases,
}
use rust_local_storage_cdn.Errors.{StorageResult}
use rust_local_storage_cdn.Models.{StoredFile}
use rust_local_storage_cdn.World.{World, Env, select_expired}
use rust_local_storage_cdn.World.Actions.{continue}
use rust_local_storage_cdn.Database.Laws.{without-IsUnique, upsert-IsUnique}
use rust_local_storage_cdn.Storage.Encode.{StorageManager}
use rust_local_storage_cdn.Storage.Store.{store_file}
use rust_local_storage_cdn.Storage.Fetch.{get_file, get_file_info}
use rust_local_storage_cdn.Storage.Remove.{delete_file, sweep_loop, sweep_expired_files, count_ok}
use rust_local_storage_cdn.Storage.Remove.Sweep.{expired_keys}
use rust_local_storage_cdn.Database.{list_expired_files}
use rust_local_storage_cdn.Storage.Buckets.{create_bucket, delete_bucket}
use rust_local_storage_cdn.Storage.Buckets.Laws.{delete_bucket_cases}
use rust_local_storage_cdn.Machine.{InBuckets, IsConsistent, Operation, perform, Step, Reach}
use rust_local_storage_cdn.Machine.Tables.{
  touch-IsUnique, touch-InBuckets, without-InBuckets, upsert-InBuckets, grown-InBuckets,
  closed-InBuckets, filter-IsUnique,
}
use rust_local_storage_cdn.Machine.Frames.{
  MayLose, ReadTables, delete_file-MayLose, get_file-ReadTables, get_file_info-ReadTables,
}
use rust_local_storage_cdn.Machine.Frames.Store.{MayGrow, create_bucket-MayGrow}
use rust_local_storage_cdn.Machine.Frames.Saved.{StoreOutcome, store_file-StoreOutcome}

module _ (bucket key : Text) (w w' : World) where
  pub lose-IsConsistent : MayLose bucket key w w' → IsConsistent w → IsConsistent w'
  lose-IsConsistent (inl f, b) (u, i) = rw (f, b) (u, i)
  lose-IsConsistent (inr f, b) (u, i) =
      rw (f, b)
        (without-IsUnique bucket key w.files u, without-InBuckets bucket key w.files w.buckets i)

  pub reading-IsConsistent :
      {A : Type 0} (r : StorageResult A)
      → ReadTables bucket key w r w'
      → IsConsistent w
      → IsConsistent w'
  reading-IsConsistent (err e) lost c = lose-IsConsistent lost c
  reading-IsConsistent (ok a) (inl f, b) (u, i) = rw (f, b) (u, i)
  reading-IsConsistent (ok a) (inr (id, now, f), b) (u, i) =
      rw (f, b) (touch-IsUnique id now w.files u, touch-InBuckets id now w.files w.buckets i)

  still-InBuckets :
      (files : List StoredFile)
      → MayGrow bucket w w'
      → InBuckets files w.buckets
      → InBuckets files w'.buckets
  still-InBuckets files (inl b) i = rw b i
  still-InBuckets files (inr b) i = rw b (grown-InBuckets bucket w.now files w.buckets i)

module _ (env : Env) (m : StorageManager) (bucket key : Text) where
  pub store-IsConsistent :
      (hash : Text) (r : StorageResult StoredFile) (w w' : World)
      → StoreOutcome env m bucket key hash w r w'
      → IsConsistent w
      → IsConsistent w'
  store-IsConsistent hash (err e) w w' (f, grown) (u, i) =
      (rw f u, rw f (still-InBuckets bucket key w w' w.files grown i))
  store-IsConsistent hash (ok file) w w' (inl (at_bucket, at_key, has_hash, f), grown, there)
        (u, i) =
      (
        rw f (upsert-IsUnique file w.files u),
        rw f (
            upsert-InBuckets file w.files w'.buckets (rw at_bucket there)
              (still-InBuckets bucket key w w' w.files grown i)),
      )
  store-IsConsistent hash (ok file) w w' (inr (same, found, f), grown, there) (u, i) =
      (rw f u, rw f (still-InBuckets bucket key w w' w.files grown i))

  pub create-IsConsistent :
      (base : Text) (w : World) → IsConsistent w → IsConsistent (create_bucket env base bucket w).1
  create-IsConsistent base w (u, i) =
      let (f, grown) = create_bucket-MayGrow env m bucket key base w in
      (
        rw f u,
        rw f (still-InBuckets bucket key w (create_bucket env base bucket w).1 w.files grown i),
      )

  pub drop-IsConsistent :
      (base : Text) (w : World) → IsConsistent w → IsConsistent (delete_bucket env base bucket w).1
  drop-IsConsistent base w (u, i) = elim (delete_bucket_cases env base bucket w) [
    | inl (e, same) ↦ rw same (u, i)
    | inr (done, f, b) ↦ (
      rw f (filter-IsUnique bucket w.files u),
      rw (f, b) (closed-InBuckets bucket w.files w.buckets i),
    )
  ]

-- What is dropped with a value is not the world.
done-world :
    {A : Type 0} (r : StorageResult A) (w : World)
    → (continue {A = A} {B = Unit {0}} r (λ a v. (ok tt, v)) w).1 ≡ w
done-world (ok a) w = refl
done-world (err e) w = refl

-- Every operation of the storage layer keeps the tables consistent, whichever of its calls fail: rows
-- are unique by bucket and key, and every row's bucket exists.
pub perform-IsConsistent :
    (env : Env) (m : StorageManager) (op : Operation) (w : World)
    → IsConsistent w
    → IsConsistent (perform env m op w).1
unfolding perform
perform-IsConsistent env m (Operation.store bucket key content content_type opts) w c =
    rw (done-world (store_file env m bucket key content content_type opts w).0) (
      store-IsConsistent env m bucket key (env.blake3 content)
        (store_file env m bucket key content content_type opts w).0 w
        (store_file env m bucket key content content_type opts w).1
        (store_file-StoreOutcome env m bucket key content content_type opts w) c)
perform-IsConsistent env m (Operation.read bucket key) w c =
    rw (done-world (get_file env m bucket key w).0) (
      reading-IsConsistent bucket key w (get_file env m bucket key w).1
        (get_file env m bucket key w).0 (get_file-ReadTables env m bucket key w) c)
perform-IsConsistent env m (Operation.info bucket key) w c =
    rw (done-world (get_file_info env m bucket key w).0) (
      reading-IsConsistent bucket key w (get_file_info env m bucket key w).1
        (get_file_info env m bucket key w).0 (get_file_info-ReadTables env m bucket key w) c)
perform-IsConsistent env m (Operation.remove bucket key) w c =
    lose-IsConsistent bucket key w (delete_file env bucket key w).1
      (delete_file-MayLose env m bucket key w) c
perform-IsConsistent env m (Operation.create bucket) w c =
    create-IsConsistent env m bucket bucket m.config.storage.path w c
perform-IsConsistent env m (Operation.drop bucket) w c =
    drop-IsConsistent env m bucket bucket m.config.storage.path w c

sweep_loop-IsConsistent :
    (env : Env) (m : StorageManager) (list : List (Text × Text)) (n : ℕ) (w : World)
    → IsConsistent w
    → IsConsistent (sweep_loop env list n w).1
unfolding sweep_loop
sweep_loop-IsConsistent env m [] n w c = c
sweep_loop-IsConsistent env m ((bucket, key) ∷ rest) n w c =
    sweep_loop-IsConsistent env m rest (count_ok env (delete_file env bucket key w).0 n)
      (delete_file env bucket key w).1
      (lose-IsConsistent bucket key w (delete_file env bucket key w).1
        (delete_file-MayLose env m bucket key w) c)

pub sweep-IsConsistent :
    (env : Env) (m : StorageManager) (w : World)
    → IsConsistent w
    → IsConsistent (sweep_expired_files env w).1
unfolding sweep_expired_files list_expired_files
sweep-IsConsistent env m w c = elim (Option-cases (env.fails select_expired)) [
  | inl fine ↦ rw fine (sweep_loop-IsConsistent env m (expired_keys w.now w.files) 0 w c)
  | inr (f, broken) ↦ rw broken c
]

Step-IsConsistent :
    (m : StorageManager) (w w' : World) → Step m w w' → IsConsistent w → IsConsistent w'
Step-IsConsistent m w w' (Step.performs env op _) c = perform-IsConsistent env m op w c
Step-IsConsistent m w w' (Step.sweeps env _) c = sweep-IsConsistent env m w c
Step-IsConsistent m w w' (Step.waits time _) c = c
Step-IsConsistent m w w' (Step.evicts entry _) c = c

-- In every state that can be reached from a consistent one, by operations and TTL sweeps of which any
-- outside call may fail, with time passing and cache entries lost between them: rows are unique by bucket and key,
-- and every row's bucket exists.
pub Reach-IsConsistent :
    (m : StorageManager) (w w' : World) → Reach m w w' → IsConsistent w → IsConsistent w'
Reach-IsConsistent m w w' (Reach.here _) c = c
Reach-IsConsistent m w w' (Reach.further _ w1 _ before step) c =
    Step-IsConsistent m w1 w' step (Reach-IsConsistent m w w1 before c)
