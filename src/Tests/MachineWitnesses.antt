-- ===== src/Tests/MachineWitnesses.antt =====
-- The theorems about the storage layer as a state machine at concrete inputs.
use rust_local_storage_cdn.Prelude.{str, text_eq, none, [], ◌∷◌, true, refl}
use rust_local_storage_cdn.World.{World}
use rust_local_storage_cdn.Database.{lookup}
use rust_local_storage_cdn.Storage.Remove.{sweep_expired_files}
use rust_local_storage_cdn.Storage.Encode.{default_options}
use rust_local_storage_cdn.Machine.{
  IsConsistent, Operation, Step, Reach, perform, contents, Allowed,
}
use rust_local_storage_cdn.Machine.Invariant.{Reach-IsConsistent}
use rust_local_storage_cdn.Machine.Refinement.{perform-Allowed}
use rust_local_storage_cdn.Tests.Samples.{env, manager, content, shared_world}

abbrev pub world : World
world = record shared_world {
  buckets = record { name = str "b"; created_at = 1; is_active = true } ∷ [];
}

pub world-IsConsistent : IsConsistent world
unfolding text_eq lookup
world-IsConsistent = ((refl, (refl, tt)), (refl, (refl, tt)))

abbrev pub storing : Operation
storing = Operation.store (str "d") (str "k") content none default_options

abbrev stored_then_swept :
    Reach manager world (sweep_expired_files env (perform env manager storing world).1).1
stored_then_swept =
    Reach.further world (perform env manager storing world).1
      (sweep_expired_files env (perform env manager storing world).1).1
      (Reach.further world world (perform env manager storing world).1 (Reach.here world)
        (Step.performs env storing world))
      (Step.sweeps env (perform env manager storing world).1)

Reach-IsConsistent_example :
    IsConsistent (sweep_expired_files env (perform env manager storing world).1).1
Reach-IsConsistent_example =
    Reach-IsConsistent manager world
      (sweep_expired_files env (perform env manager storing world).1).1 stored_then_swept
      world-IsConsistent

perform-Allowed_example :
    Allowed env.blake3 storing
      (perform env manager storing world).0
      (contents world)
      (contents (perform env manager storing world).1)
perform-Allowed_example = perform-Allowed env manager storing world world-IsConsistent
