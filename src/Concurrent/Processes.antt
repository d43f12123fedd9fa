-- ===== src/Concurrent/Processes.antt =====
-- A request as a chain of steps that nothing interrupts, between which other requests may take steps of
-- theirs: every handler shares the storage manager through a read lock.
use rust_local_storage_cdn.Prelude.{Bool, true, false, if◌then◌else◌, ok, err, ◌≡◌, refl, ap, ◌∙◌}
use rust_local_storage_cdn.Errors.{StorageError, StorageResult}
use rust_local_storage_cdn.World.{World}
use rust_local_storage_cdn.World.Actions
use rust_local_storage_cdn.World.Actions.{Action}

-- A step changes the world, and what follows depends on the world before it.
pub data Process (A : Type 0) : Type 0 where
  returns : StorageResult A → Process A
  atomic : (effect : World → World) → (next : World → Process A) → Process A

abbrev pub pure : {A : Type 0} → A → Process A
pure a = returns (ok a)

abbrev pub raise : {A : Type 0} → StorageError → Process A
raise e = returns (err e)

-- A call of the storage layer that is one step.
abbrev pub call : {A : Type 0} → Action A → Process A
call m = atomic (λ w. (m w).1) (λ w. returns (m w).0)

infixl 10 ◌>>=◌ ◌>>◌
abbrev pub ◌>>=◌ : {A B : Type 0} → Process A → (A → Process B) → Process B
returns (ok a) >>= f = f a
returns (err e) >>= f = returns (err e)
atomic effect next >>= f = atomic effect (λ w. next w >>= f)

abbrev pub ◌>>◌ : {B : Type 0} → Process (Unit {0}) → Process B → Process B
p >> q = p >>= λ _. q

abbrev pub attempt : {A : Type 0} → Process A → Process (StorageResult A)
attempt (returns r) = returns (ok r)
attempt (atomic effect next) = atomic effect (λ w. attempt (next w))

abbrev pub ignore : {A : Type 0} → Process A → Process (Unit {0})
ignore p = attempt p >>= λ _. pure tt

-- The steps of one request with nothing between them.
abbrev pub run : {A : Type 0} → Process A → Action A
run (returns r) w = (r, w)
run (atomic effect next) w = run (next w) (effect w)

pub run-bind :
    {A B : Type 0} (p : Process A) (f : A → Process B) (w : World)
    → run (p >>= f) w ≡ Actions.◌>>=◌ (run p) (λ a. run (f a)) w
run-bind (returns (ok a)) f w = refl
run-bind (returns (err e)) f w = refl
run-bind (atomic effect next) f w = run-bind (next w) f (effect w)

pub run-attempt :
    {A : Type 0} (p : Process A) (w : World) → run (attempt p) w ≡ Actions.attempt (run p) w
run-attempt (returns r) w = refl
run-attempt (atomic effect next) w = run-attempt (next w) (effect w)

continue_congr :
    {A B : Type 0} (r : StorageResult A) (f g : A → Action B) (w : World)
    → ((a : A) (v : World) → f a v ≡ g a v)
    → Actions.continue r f w ≡ Actions.continue r g w
continue_congr (ok a) f g w h = h a w
continue_congr (err e) f g w h = refl

-- A process that runs alone as an action does, and goes on as another does.
pub alone-bind :
    {A B : Type 0} (p : Process A) (f : A → Process B) (m : Action A) (g : A → Action B)
    → ((w : World) → run p w ≡ m w)
    → ((a : A) (w : World) → run (f a) w ≡ g a w)
    → (w : World) → run (p >>= f) w ≡ Actions.◌>>=◌ m g w
alone-bind {A} {B} p f m g same rest w =
    run-bind p f w
    ∙ ap (λ (x : StorageResult A × World). Actions.continue x.0 (λ a. run (f a)) x.1) (same w)
    ∙ continue_congr (m w).0 (λ a. run (f a)) g (m w).1 rest

pub alone-attempt :
    {A : Type 0} (p : Process A) (m : Action A)
    → ((w : World) → run p w ≡ m w)
    → (w : World) → run (attempt p) w ≡ Actions.attempt m w
alone-attempt {A} p m same w =
    run-attempt p w ∙ ap (λ (x : StorageResult A × World). (ok x.0, x.1)) (same w)

pub alone-ignore :
    {A : Type 0} (p : Process A) (m : Action A)
    → ((w : World) → run p w ≡ m w)
    → (w : World) → run (ignore p) w ≡ Actions.ignore m w
alone-ignore p m same w =
    run-bind (attempt p) (λ _. pure tt) w
    ∙ ap (λ x. Actions.continue x.0 (λ _. Actions.pure tt) x.1) (alone-attempt p m same w)

pub alone-if :
    {A : Type 0} (b : Bool) (p q : Process A) (m n : Action A)
    → ((w : World) → run p w ≡ m w)
    → ((w : World) → run q w ≡ n w)
    → (w : World) → run (if b then p else q) w ≡ (if b then m else n) w
alone-if true p q m n same other = same
alone-if false p q m n same other = other
