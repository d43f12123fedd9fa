-- ===== src/Tests/ConcurrentWitnesses.antt =====
-- The theorems about requests that run at once at concrete inputs.
use rust_local_storage_cdn.Prelude.{ℕ, str, List, [], ◌∷◌, ◌++◌, ◌==◌, if◌then◌else◌, ◌≡◌, refl}
use rust_local_storage_cdn.Machine.{Operation}
use rust_local_storage_cdn.Concurrent.Processes.{Process, returns, atomic}
use rust_local_storage_cdn.Concurrent.{Request, System, Reach, Step, initial, Explains}
use rust_local_storage_cdn.Concurrent.Linear.{Reach-Explains}
use rust_local_storage_cdn.Tests.Samples.{env, manager}
use rust_local_storage_cdn.Tests.MachineWitnesses.{world, world-IsConsistent, storing}

-- A store and a removal; the others are reads.
abbrev requests : ℕ → Request
requests i = record {
  env = env;
  operation =
      if i == 0
      then storing
      else if i == 1
      then Operation.remove (str "b") (str "a")
      else Operation.read (str "b") (str "c");
}

-- One step of a request, if it has one left.
turn :
    (s t : System) (i : ℕ) (p : Process (Unit {0}))
    → Reach s t
    → t.rest i ≡ p
    → (u : System) × Reach s u
turn s t i (returns r) before e = (t, before)
turn s t i (atomic effect next) before e = (_, Reach.further before (Step.proceeds i effect next e))

-- Requests take steps in the order that a list gives.
schedule : (s t : System) → Reach s t → List ℕ → (u : System) × Reach s u
schedule s t before [] = (t, before)
schedule s t before (i ∷ is) = let r = turn s t i (t.rest i) before refl in schedule s r.0 r.1 is

abbrev start : System
start = initial manager requests world

middle : (u : System) × Reach start u
middle = schedule start start Reach.here (0 ∷ 1 ∷ 2 ∷ 1 ∷ 0 ∷ [])

late : (u : System) × Reach middle.0 u
late = schedule middle.0 middle.0 Reach.here (1 ∷ 0 ∷ 0 ∷ 2 ∷ 0 ∷ 0 ∷ 0 ∷ 0 ∷ 0 ∷ 1 ∷ [])

Reach-Explains_example :
    (order : List ℕ) × (more : List ℕ) × Explains requests world order middle.0
    × Explains requests world (more ++ order) late.0
Reach-Explains_example =
    Reach-Explains manager requests world middle.0 late.0 world-IsConsistent.0 middle.1 late.1
