-- ===== src/Concurrent/Follows.antt =====
-- What the steps of a request do to the abstract store, whatever other requests do between them: one of
-- them makes the change of the request, and the others make none.
use rust_local_storage_cdn.Prelude.{ℕ, Bool, true, false, ok, err, ◌≡◌, ◌⊎◌, inl, inr, refl}
use rust_local_storage_cdn.Errors.{StorageError, StorageResult}
use rust_local_storage_cdn.World.{World}
use rust_local_storage_cdn.World.Actions.{Action, gets, draw}
use rust_local_storage_cdn.Database.Laws.{IsUnique}
use rust_local_storage_cdn.Machine.{Contents, contents}
use rust_local_storage_cdn.Machine.Refinement.{same_files}
use rust_local_storage_cdn.Concurrent.Processes.{
  Process, returns, atomic, pure, call, ◌>>=◌, attempt, ignore,
}

-- Whether an outcome fits, by whether the change was made.
abbrev pub Verdict : Type 0 → Type 1
Verdict A = Bool → StorageResult A → Type 0

-- From any table with unique rows each step leaves such a table, with the same contents or, once, with
-- those that the change gives.
abbrev pub Follows : {A : Type 0} → Verdict A → (Contents → Contents) → Bool → Process A → Type 0
Follows V change made (returns r) = V made r
Follows V change made (atomic effect next) =
    (w : World)
    → IsUnique w.files
    → IsUnique (effect w).files
      × (((contents (effect w) ≡ contents w) × Follows V change made (next w))
          ⊎ ((made ≡ false)
              × (contents (effect w) ≡ change (contents w))
              × Follows V change true (next w)))

-- A success made the change, and a failure did not.
abbrev pub Exact : {A : Type 0} → Verdict A
Exact made (ok a) = made ≡ true
Exact made (err e) = made ≡ false

-- A success did not make the change.
abbrev pub Weak : {A : Type 0} → Verdict A
Weak made (ok a) = made ≡ false
Weak made (err e) = Unit

abbrev pub Kept : {A : Type 0} → Bool → Verdict A
Kept b made r = made ≡ b

abbrev pub Sure : {A : Type 0} → Bool → Verdict A
Sure b made (ok a) = made ≡ b
Sure b made (err e) = ⊥

abbrev pub Lifted : {A : Type 0} → Verdict A → Verdict (StorageResult A)
Lifted V made (ok r) = V made r
Lifted V made (err e) = ⊥

module _ (change : Contents → Contents) where
  pub bind-Follows :
      {A B : Type 0} (U : Verdict A) (V : Verdict B) (made : Bool) (p : Process A)
      (f : A → Process B)
      → ((b : Bool) (a : A) → U b (ok a) → Follows V change b (f a))
      → ((b : Bool) (e : StorageError) → U b (err e) → V b (err e))
      → Follows U change made p
      → Follows V change made (p >>= f)
  bind-Follows U V made (returns (ok a)) f good bad h = good made a h
  bind-Follows U V made (returns (err e)) f good bad h = bad made e h
  bind-Follows U V made (atomic effect next) f good bad h = λ w u. elim (h w u).1 [
    | inl (same, rest) ↦ ((h w u).0, inl (same, bind-Follows U V made (next w) f good bad rest))
    | inr (first, changed, rest) ↦
        ((h w u).0, inr (first, changed, bind-Follows U V true (next w) f good bad rest))
  ]

  pub attempt-Follows :
      {A : Type 0} (V : Verdict A) (made : Bool) (p : Process A)
      → Follows V change made p
      → Follows (Lifted V) change made (attempt p)
  attempt-Follows V made (returns r) h = h
  attempt-Follows V made (atomic effect next) h = λ w u. elim (h w u).1 [
    | inl (same, rest) ↦ ((h w u).0, inl (same, attempt-Follows V made (next w) rest))
    | inr (first, changed, rest) ↦
        ((h w u).0, inr (first, changed, attempt-Follows V true (next w) rest))
  ]

  -- A step that leaves the table of files alone.
  pub call-Kept :
      {A : Type 0} (made : Bool) (m : Action A)
      → ((w : World) → (m w).1.files ≡ w.files)
      → Follows (Kept made) change made (call m)
  call-Kept made m same w u = (rw (same w) u, inl (same_files w (m w).1 (same w), refl))

  pub gets-Sure :
      {A : Type 0} (made : Bool) (f : World → A) → Follows (Sure made) change made (call (gets f))
  gets-Sure made f w u = (u, inl (refl, refl))

  pub draw-Sure :
      {A : Type 0} (made : Bool) (f : ℕ → A) → Follows (Sure made) change made (call (draw f))
  draw-Sure made f w u = (u, inl (same_files w (draw f w).1 refl, refl))

  module _ {A B : Type 0} (V : Verdict B) (made : Bool) (p : Process A) (f : A → Process B) where
    pub kept_first :
        Follows (Kept made) change made p
        → ((a : A) → Follows V change made (f a))
        → ((e : StorageError) → V made (err e))
        → Follows V change made (p >>= f)
    kept_first kept good bad =
        bind-Follows (Kept made) V made p f (λ b a e. rw e (good a)) (λ b x e. rw e (bad x)) kept

    pub sure_first :
        Follows (Sure made) change made p
        → ((a : A) → Follows V change made (f a))
        → Follows V change made (p >>= f)
    sure_first sure good =
        bind-Follows (Sure made) V made p f (λ b a e. rw e (good a)) (λ b x h. absurd h) sure

  attempted :
      {A : Type 0} (b made : Bool) (p : Process A)
      → Follows (Kept b) change made p
      → Follows (Sure b) change made (attempt p)
  attempted b made (returns r) h = h
  attempted b made (atomic effect next) h = λ w u. elim (h w u).1 [
    | inl (same, rest) ↦ ((h w u).0, inl (same, attempted b made (next w) rest))
    | inr (first, changed, rest) ↦ ((h w u).0, inr (first, changed, attempted b true (next w) rest))
  ]

  pub attempt-Sure :
      {A : Type 0} (made : Bool) (p : Process A)
      → Follows (Kept made) change made p
      → Follows (Sure made) change made (attempt p)
  attempt-Sure made p kept = attempted made made p kept

  pub ignore-Sure :
      {A : Type 0} (made : Bool) (p : Process A)
      → Follows (Kept made) change made p
      → Follows (Sure made) change made (ignore p)
  ignore-Sure made p kept =
      sure_first (Sure made) made (attempt p) (λ _. pure tt) (attempt-Sure made p kept) (λ a. refl)

  pub weak_first :
      {A B : Type 0} (p : Process A) (f : A → Process B)
      → Follows Weak change false p
      → ((a : A) → Follows Weak change false (f a))
      → Follows Weak change false (p >>= f)
  weak_first p f weak good =
      bind-Follows Weak Weak false p f (λ b a e. rw e (good a)) (λ b x h. tt) weak

  map-Follows :
      {A : Type 0} (U V : Verdict A) (made : Bool) (p : Process A)
      → ((b : Bool) (r : StorageResult A) → U b r → V b r)
      → Follows U change made p
      → Follows V change made p
  map-Follows U V made (returns r) imply h = imply made r h
  map-Follows U V made (atomic effect next) imply h = λ w u. elim (h w u).1 [
    | inl (same, rest) ↦ ((h w u).0, inl (same, map-Follows U V made (next w) imply rest))
    | inr (first, changed, rest) ↦
        ((h w u).0, inr (first, changed, map-Follows U V true (next w) imply rest))
  ]

  pub sure-Exact :
      {A : Type 0} (made : Bool) (p : Process A)
      → Follows (Sure true) change made p
      → Follows Exact change made p
  sure-Exact {A} made p = map-Follows (Sure true) Exact made p imply
    where
      imply : (b : Bool) (r : StorageResult A) → Sure true b r → Exact b r
      imply b (ok a) e = e
      imply b (err x) h = absurd h

  pub kept-Weak :
      {A : Type 0} (made : Bool) (p : Process A)
      → Follows (Kept false) change made p
      → Follows Weak change made p
  kept-Weak {A} made p = map-Follows (Kept false) Weak made p imply
    where
      imply : (b : Bool) (r : StorageResult A) → Kept false b r → Weak b r
      imply b (ok a) e = e
      imply b (err x) e = tt

  -- A process whose outcome is dropped.
  pub any-ignore :
      {A : Type 0} (V : Verdict A) (made : Bool) (p : Process A)
      → Follows V change made p
      → Follows (λ b r. Unit) change made (ignore p)
  any-ignore V made p h =
      bind-Follows (Lifted V) (λ b r. Unit) made (attempt p) (λ _. pure tt) (λ b a e. tt)
        (λ b e x. tt) (attempt-Follows V made p h)
