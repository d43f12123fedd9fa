-- ===== src/Storage/Disk.antt =====
-- The file system as local-storage/src/storage.rs uses it, and the atomic write of
-- local-storage/src/performance_optimizations.rs. The disk holds regular files by their canonical
-- paths, so two spellings of a path are one file; a call that fails changes nothing.
use rust_local_storage_cdn.Prelude.{
  Text, Bytes, Bool, Option, none, some, ◌++◌, starts_with, if◌then◌else◌, Result, ok, err, str,
}
use rust_local_storage_cdn.World.{
  Env, Fault, write_temp, rename_temp, read_file, remove_file, remove_dir,
}
use rust_local_storage_cdn.World.Actions.{Action, ◌>>◌, modify, io_call, put}
use rust_local_storage_cdn.Storage.Paths.{temp_path, slash}

abbrev missing_file : Fault
missing_file = record {
  message = str "No such file or directory (os error 2)";
  code = none;
  is_missing_file = Bool.true;
}

abbrev pub read_outcome : Option Fault → Option Bytes → Result Fault Bytes
read_outcome (some f) content = err f
read_outcome none none = err missing_file
read_outcome none (some content) = ok content

module _ (env : Env) where
  -- `write_file_optimized`
  unfoldable pub write_file : Text → Bytes → Action (Unit {0})
  write_file path content = do
    io_call env (write_temp path)
    modify (λ w. record w { disk = put (env.canonical path) (some content) w.disk })

  -- `tokio::fs::rename`: the source is gone, unless it is the target.
  unfoldable pub rename : Text → Text → Action (Unit {0})
  rename from to = do
    io_call env (rename_temp to)
    modify (λ w. record w {
      disk =
          put (env.canonical to) (w.disk (env.canonical from))
            (put (env.canonical from) none w.disk);
    })

  unfoldable pub write_file_atomic : Text → Bytes → Action (Unit {0})
  write_file_atomic path content = do
    write_file (temp_path path) content
    rename (temp_path path) path

  -- The outcome is a value: the bytes, or what the error says.
  unfoldable pub read_disk : Text → Action (Result Fault Bytes)
  read_disk path w =
      (ok (read_outcome (env.fails (read_file path)) (w.disk (env.canonical path))), w)

  unfoldable pub unlink : Text → Action (Unit {0})
  unlink path = do
    io_call env (remove_file path)
    modify (λ w. record w { disk = put (env.canonical path) none w.disk })

  -- `remove_dir_all`: every file below the directory.
  unfoldable pub remove_tree : Text → Action (Unit {0})
  remove_tree dir = do
    io_call env (remove_dir dir)
    modify (λ w. record w {
      disk = λ file. if starts_with (env.canonical dir ++ slash) file then none else w.disk file;
    })
