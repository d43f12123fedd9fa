-- ===== src/Concurrent/Linear.antt =====
-- Requests that run at once do to the abstract store what they would do one after another.
use rust_local_storage_cdn.Prelude.{
  ℕ, Bool, true, false, List, [], ◌∷◌, ◌++◌, ◌==◌, ◌≢◌, append_assoc, ==_iff, inl, inr, refl, arith,
  subst, Bool-cases, ◌≡◌, ◌∙◌, ap, none,
}
use rust_local_storage_cdn.World.{World, Env}
use rust_local_storage_cdn.Database.Laws.{IsUnique}
use rust_local_storage_cdn.Storage.Encode.{StorageManager}
use rust_local_storage_cdn.Machine.{Operation, contents, set}
use rust_local_storage_cdn.Concurrent.Processes.{Process, pure}
use rust_local_storage_cdn.Concurrent.Steps.{
  operation_steps, store_steps, get_steps, info_steps, create_steps,
}
use rust_local_storage_cdn.Concurrent.Follows.{Follows, Exact, bind-Follows, weak_first, kept-Weak}
use rust_local_storage_cdn.Concurrent.Removals.{delete-Exact, drop-Exact, create-Kept}
use rust_local_storage_cdn.Concurrent.Stores.{store-Exact, storing}
use rust_local_storage_cdn.Concurrent.Reads.{get-Weak, info-Weak}
use rust_local_storage_cdn.Concurrent.{
  Request, System, Step, Reach, initial, update, change_of, Fits, taken, Once, applied, Explains,
}

operation-Follows :
    (env : Env) (m : StorageManager) (op : Operation)
    → Follows (Fits op) (change_of env.blake3 op) false (operation_steps env m op)
unfolding operation_steps
operation-Follows env m (Operation.store bucket key content content_type opts) =
    bind-Follows (storing env m bucket key content content_type opts) Exact Exact false
      (store_steps env m bucket key content content_type opts) (λ a. pure tt) (λ b a made. made)
      (λ b e made. made) (store-Exact env m bucket key content content_type opts)
operation-Follows env m (Operation.read bucket key) =
    weak_first (set bucket key none) (get_steps env m bucket key) (λ a. pure tt)
      (get-Weak env m bucket key) (λ a. refl)
operation-Follows env m (Operation.info bucket key) =
    weak_first (set bucket key none) (info_steps env m bucket key) (λ a. pure tt)
      (info-Weak env m bucket key) (λ a. refl)
operation-Follows env m (Operation.remove bucket key) = delete-Exact env bucket key
operation-Follows env m (Operation.create bucket) =
    kept-Weak (λ c. c) false (create_steps env m.config.storage.path bucket)
      (create-Kept env (λ c. c) false m.config.storage.path bucket)
operation-Follows env m (Operation.drop bucket) = drop-Exact env m.config.storage.path bucket

module _ (requests : ℕ → Request) (start : World) where
  -- What each request has still to do may follow its change.
  abbrev Waiting : ℕ → Bool → Process (Unit {0}) → Type 0
  Waiting i made p =
      Follows (Fits (requests i).operation)
        (change_of (requests i).env.blake3 (requests i).operation) made p

  record Ordered (order : List ℕ) (s : System) : Type 0 where
    unique : IsUnique s.world.files
    once : Once order
    begun : (i : ℕ) → taken i order ≡ true → s.began i ≡ true
    agrees : contents s.world ≡ applied requests order (contents start)
    each : (i : ℕ) → Waiting i (taken i order) (s.rest i)

  begun_update : (began : ℕ → Bool) (i j : ℕ) → began j ≡ true → update began i true j ≡ true
  begun_update began i j h = ground arith

  each_update :
      (rest : ℕ → Process (Unit {0})) (i : ℕ) (p : Process (Unit {0})) (order order' : List ℕ)
      → ((j : ℕ) → i ≢ j → taken j order' ≡ taken j order)
      → ((j : ℕ) → Waiting j (taken j order) (rest j))
      → Waiting i (taken i order') p
      → (j : ℕ) → Waiting j (taken j order') (update rest i p j)
  each_update rest i p order order' others each here j = elim (Bool-cases (i == j)) [
    | inl same ↦ rw same (subst (λ k. Waiting k (taken k order') p) ((==_iff i j).0 same) here)
    | inr other ↦ rw (other, others j (λ e. ground (arith, ==_iff i j))) (each j)
  ]

  Step-Ordered :
      (s t : System) (order : List ℕ)
      → Ordered order s
      → Step s t
      → (more : List ℕ) × Ordered (more ++ order) t
  unfolding contents
  Step-Ordered s t order o (Step.proceeds i effect next e) =
      let (unique, moved) = subst (Waiting i (taken i order)) e (o.each i) s.world o.unique in
      elim moved [
        | inl (same, rest) ↦ (
          [],
          record {
            unique = unique;
            once = o.once;
            begun = λ j h. begun_update s.began i j (o.begun j h);
            agrees = same ∙ o.agrees;
            each = each_update s.rest i (next s.world) order order (λ j d. refl) o.each rest;
          },
        )
        | inr (first, changed, rest) ↦ (
          i ∷ [],
          record {
            unique = unique;
            once = (first, o.once);
            begun = λ j h. ground (arith, o.begun j, ==_iff i j);
            agrees =
                changed ∙ ap (change_of (requests i).env.blake3 (requests i).operation) o.agrees;
            each =
                each_update s.rest i (next s.world) order (i ∷ order)
                  (λ j d. ground (arith, ==_iff i j)) o.each (rw ((==_iff i i).1 refl) rest);
          },
        )
      ]
  Step-Ordered s t order o (Step.waits time) = (
    [],
    record { unique = o.unique; once = o.once; begun = o.begun; agrees = o.agrees; each = o.each },
  )
  Step-Ordered s t order o (Step.evicts entry) = (
    [],
    record { unique = o.unique; once = o.once; begun = o.begun; agrees = o.agrees; each = o.each },
  )

  Reach-Ordered :
      (s t : System) (order : List ℕ)
      → Ordered order s
      → Reach s t
      → (more : List ℕ) × Ordered (more ++ order) t
  Reach-Ordered s t order o Reach.here = ([], o)
  Reach-Ordered s t order o (Reach.further {t = u} before step) =
      let (more, o1) = Reach-Ordered s u order o before in
      let (last, o2) = Step-Ordered u t (more ++ order) o1 step in
      (last ++ more, rw (append_assoc last more order) o2)

  Ordered-Explains :
      (s : System) (order : List ℕ) → Ordered order s → Explains requests start order s
  Ordered-Explains s order o = (
    o.unique,
    o.once,
    o.begun,
    o.agrees,
    λ i r ended. subst (Waiting i (taken i order)) ended (o.each i),
  )

  initial-Ordered :
      (m : StorageManager) → IsUnique start.files → Ordered [] (initial m requests start)
  initial-Ordered m u = record {
    unique = u;
    once = tt;
    begun = λ i h. cc;
    agrees = refl;
    each = λ i. operation-Follows (requests i).env m (requests i).operation;
  }

-- Linearizability of the table of files: whatever requests run at once, in whatever order their steps
-- come and whichever of their outside calls fail, every state that is reached from unique rows has
-- unique rows and an order of requests that have begun, each at most once, which one after another make of the abstract
-- store what is stored; each store and removal that has ended stands in the order exactly if it
-- succeeded, a read that succeeded does not; and the order of a later state only adds requests after
-- those of the earlier one.
pub Reach-Explains :
    (m : StorageManager) (requests : ℕ → Request) (start : World) (s t : System)
    → IsUnique start.files
    → Reach (initial m requests start) s
    → Reach s t
    → (order : List ℕ) × (more : List ℕ) × Explains requests start order s
      × Explains requests start (more ++ order) t
Reach-Explains m requests start s t u before after =
    let (order, o1) =
      Reach-Ordered requests start (initial m requests start) s []
        (initial-Ordered requests start m u) before in
    let order' = order ++ [] in
    let (more, o2) = Reach-Ordered requests start s t order' o1 after in
    (
      order',
      more,
      Ordered-Explains requests start s order' o1,
      Ordered-Explains requests start t (more ++ order') o2,
    )
