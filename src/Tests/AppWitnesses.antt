-- ===== src/Tests/AppWitnesses.antt =====
-- The theorem about the running server at a concrete run.
use rust_local_storage_cdn.Prelude.{◌+◌, pos, str, none, some, true, false, ok}
use rust_local_storage_cdn.World.{World}
use rust_local_storage_cdn.S3.Router
use rust_local_storage_cdn.Storage.Remove.{sweep_expired_files}
use rust_local_storage_cdn.Machine.{IsConsistent}
use rust_local_storage_cdn.App.{Call, Crates, serve, Step, Reach}
use rust_local_storage_cdn.App.Invariant.{Server-IsConsistent}
use rust_local_storage_cdn.Tests.Samples.{env, content}
use rust_local_storage_cdn.Tests.AuthWitnesses.{hashes, request}
use rust_local_storage_cdn.Tests.S3Witnesses.{open_state, web}
use rust_local_storage_cdn.Tests.MachineWitnesses.{world, world-IsConsistent}

abbrev pub crates : Crates
crates = record {
  env = env;
  decoders = record { url_decode = λ s. some s; from_utf8_lossy = λ s. s };
  header_value = λ s. true;
  folding = record { ilike = λ pattern s. true; json_text = λ s. s };
  hashes = hashes;
  web = web;
}

-- An upload with an expiry in ten seconds.
abbrev pub uploading : Call
uploading =
    Call.upload (str "d")
      (record {
        compress = none;
        encrypt = none;
        compression_algorithm = none;
        compression_level = none;
        encryption_key_id = none;
        ttl_seconds = some (pos 10);
      })
      (some (str "attachment; filename=k")) none none (ok content)

abbrev deleting : Call
deleting = Call.s3 request (Router.Call.drop_key (str "b") (str "a"))

abbrev uploaded : World
uploaded = (serve crates open_state false uploading world).1

abbrev deleted : World
deleted = (serve crates open_state true deleting uploaded).1

abbrev late : World
late = record deleted { now = deleted.now + 20 }

abbrev served : Reach open_state world (sweep_expired_files env late).1
served =
    Reach.further world late (sweep_expired_files env late).1
      (Reach.further world deleted late
        (Reach.further world uploaded deleted
          (Reach.further world world uploaded (Reach.here world)
            (Step.serves crates false uploading world))
          (Step.serves crates true deleting uploaded))
        (Step.waits 20 deleted))
      (Step.sweeps env late)

Server-IsConsistent_example : IsConsistent (sweep_expired_files env late).1
Server-IsConsistent_example =
    Server-IsConsistent open_state world (sweep_expired_files env late).1 served world-IsConsistent
