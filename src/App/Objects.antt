-- ===== src/App/Objects.antt =====
-- The S3-compatible API keeps the tables consistent.
use rust_local_storage_cdn.Prelude.{
  ℕ, ◌+◌, Text, Bytes, str, Option, none, some, List, [], ◌∷◌, pos, ok, err, arith,
}
use rust_local_storage_cdn.World.{World, Env}
use rust_local_storage_cdn.World.Actions.{Action}
use rust_local_storage_cdn.Database.{list_buckets_with_created_at, list_files}
use rust_local_storage_cdn.Storage.Encode.{default_options}
use rust_local_storage_cdn.Storage.Store.{store_file}
use rust_local_storage_cdn.Storage.Fetch.{get_file, get_file_info}
use rust_local_storage_cdn.Storage.Remove.{delete_file}
use rust_local_storage_cdn.Storage.Buckets
use rust_local_storage_cdn.Storage.Buckets.{list_file_infos}
use rust_local_storage_cdn.Machine.{IsConsistent}
use rust_local_storage_cdn.Handlers.Download.{AppState}
use rust_local_storage_cdn.S3.Errors.{S3Result}
use rust_local_storage_cdn.S3.Auth.{Hashes, Request}
use rust_local_storage_cdn.S3.Xml.{Web, ObjectIdentifier}
use rust_local_storage_cdn.S3.Actions.{
  S3Action, continue, pure, lift, converted, outcome, ◌>>=◌, ◌>>◌,
}
use rust_local_storage_cdn.S3.Handlers.{
  ListObjectsQuery, verify, page_size, list_buckets, create_bucket, delete_bucket, list_objects_v2,
}
use rust_local_storage_cdn.S3.Handlers.Objects.{
  copy_source, object_expiry, copy_object, put_content, copy_or_put, put_object, get_object,
  head_object, deleted_response, delete_object,
}
use rust_local_storage_cdn.S3.Handlers.Batch.{
  Entries, record_outcome, delete_loop, parse_delete, bucket_post, required_query,
}
use rust_local_storage_cdn.S3.Router.{Call, handle}
use rust_local_storage_cdn.App.Keeps.{
  Keeps, store-Keeps, get-Keeps, info-Keeps, delete-Keeps, create-Keeps, drop-Keeps,
}

abbrev Keeps3 : {A : Type 0} → S3Action A → Type 0
Keeps3 m = (w : World) → IsConsistent w → IsConsistent (m w).1

continued :
    {A B : Type 0} (r : S3Result A) (f : A → S3Action B) (w : World)
    → ((a : A) → Keeps3 (f a))
    → IsConsistent w
    → IsConsistent (continue r f w).1
continued (ok a) f w rest c = rest a w c
continued (err e) f w rest c = c

bind-Keeps3 :
    {A B : Type 0} (m : S3Action A) (f : A → S3Action B)
    → Keeps3 m
    → ((a : A) → Keeps3 (f a))
    → Keeps3 (m >>= f)
bind-Keeps3 m f first rest w c = continued (m w).0 f (m w).1 rest (first w c)

converted_world :
    {A : Type 0} (m : Action A) (w : World) → IsConsistent (m w).1 → IsConsistent (converted m w).1
converted_world m w c = ground arith

converted-Keeps3 : {A : Type 0} (m : Action A) → Keeps m → Keeps3 (converted m)
converted-Keeps3 m keeps w c = converted_world m w (keeps w c)

module _ (env : Env) (h : Hashes) (web : Web) (state : AppState) (r : Request) where
  -- A handler verifies the signature first, which changes nothing.
  verified : {A : Type 0} (m : S3Action A) → Keeps3 m → Keeps3 (verify h state r >> m)
  unfolding verify
  verified m keeps = bind-Keeps3 (verify h state r) (λ u. m) (λ w c. c) (λ u. keeps)

  -- One call of the storage layer, and an answer.
  calling :
      {A B : Type 0} (m : Action A) (f : A → B)
      → Keeps m
      → Keeps3 (verify h state r >> (converted m >>= λ a. pure (f a)))
  calling m f keeps =
      verified (converted m >>= λ a. pure (f a))
        (bind-Keeps3 (converted m) (λ a. pure (f a)) (converted-Keeps3 m keeps) (λ a w c. c))

  list-Keeps3 :
      (order : List (Text × ℕ) → List (Text × ℕ)) → Keeps3 (list_buckets env h web state r order)
  unfolding list_buckets list_buckets_with_created_at
  list-Keeps3 order = calling (list_buckets_with_created_at env order) _ (λ w c. ground arith)

  objects-Keeps3 :
      (bucket : Text) (query : ListObjectsQuery)
      → Keeps3 (list_objects_v2 env h web state r bucket query)
  unfolding list_objects_v2 list_file_infos list_files
  objects-Keeps3 bucket query =
      calling
        (list_file_infos env bucket query.prefix (some (pos (page_size query + 1))) (some (pos 0)))
        _ (λ w c. ground arith)

  create-Keeps3 : (bucket : Text) → Keeps3 (create_bucket env h web state r bucket)
  unfolding create_bucket
  create-Keeps3 bucket =
      calling (Buckets.create_bucket env state.storage.config.storage.path bucket) _
        (create-Keeps env state.storage bucket [] state.storage.config.storage.path)

  drop-Keeps3 : (bucket : Text) → Keeps3 (delete_bucket env h web state r bucket)
  unfolding delete_bucket
  drop-Keeps3 bucket =
      calling (Buckets.delete_bucket env state.storage.config.storage.path bucket) _
        (drop-Keeps env state.storage bucket [] state.storage.config.storage.path)

module _ (env : Env) (h : Hashes) (web : Web) (state : AppState) (r : Request)
    (bucket key : Text) where
  copy-Keeps3 : (source : Text) → Keeps3 (copy_object env h web state r bucket key source)
  unfolding copy_object
  copy-Keeps3 source =
      let stored = λ (x : Bytes × Option Text).
        store_file env state.storage bucket key x.0 x.1 default_options in
      bind-Keeps3 (lift (copy_source source)) _ (λ w c. c)
        (λ s.
          bind-Keeps3 (converted (get_file env state.storage s.0 s.1)) _
            (converted-Keeps3 (get_file env state.storage s.0 s.1)
              (get-Keeps env state.storage s.0 s.1))
            (λ x.
              bind-Keeps3 (converted (stored x)) _
                (converted-Keeps3 (stored x)
                  (store-Keeps env state.storage bucket key x.0 x.1 default_options))
                (λ file w c. c)))

  content-Keeps3 : Keeps3 (put_content env h web state r bucket key)
  unfolding put_content
  content-Keeps3 w c =
      bind-Keeps3 (lift (object_expiry w.now (r.headers (str "x-ttl-seconds")))) _ (λ v k. k)
        (λ expires_at.
          let opts = record default_options { expires_at = expires_at } in
          let stored =
            store_file env state.storage bucket key r.body (r.headers (str "content-type")) opts in
          bind-Keeps3 (converted stored) _
            (converted-Keeps3 stored (
              store-Keeps env state.storage bucket key r.body (r.headers (str "content-type"))
                opts))
            (λ file v k. k))
        w c

  copy_or_put-Keeps3 :
      (source : Option Text) → Keeps3 (copy_or_put env h web state r bucket key source)
  unfolding copy_or_put
  copy_or_put-Keeps3 none = content-Keeps3
  copy_or_put-Keeps3 (some source) = copy-Keeps3 source

  put-Keeps3 : Keeps3 (put_object env h web state r bucket key)
  unfolding put_object
  put-Keeps3 =
      verified env h web state r
        (copy_or_put env h web state r bucket key (r.headers (str "x-amz-copy-source")))
        (copy_or_put-Keeps3 (r.headers (str "x-amz-copy-source")))

  get-Keeps3 : Keeps3 (get_object env h web state r bucket key)
  unfolding get_object
  get-Keeps3 = verified env h web state r _ (
      bind-Keeps3 (converted (get_file env state.storage bucket key)) _
        (converted-Keeps3 (get_file env state.storage bucket key)
          (get-Keeps env state.storage bucket key))
        (λ x.
          bind-Keeps3 (converted (get_file_info env state.storage bucket key)) _
            (converted-Keeps3 (get_file_info env state.storage bucket key)
              (info-Keeps env state.storage bucket key))
            (λ info w c. c)))

  head-Keeps3 : Keeps3 (head_object env h web state r bucket key)
  unfolding head_object
  head-Keeps3 =
      calling env h web state r (get_file_info env state.storage bucket key) _
        (info-Keeps env state.storage bucket key)

  delete-Keeps3 : Keeps3 (delete_object env h web state r bucket key)
  unfolding delete_object
  delete-Keeps3 = verified env h web state r _ (
      bind-Keeps3 (outcome (delete_file env bucket key)) (λ result. lift (deleted_response result))
        (delete-Keeps env state.storage bucket key) (λ result w c. c))

module _ (env : Env) (bucket : Text) (h : Hashes) (web : Web) (state : AppState) (r : Request) where
  loop-Keeps3 :
      (objects : List ObjectIdentifier) (entries : Entries)
      → Keeps3 (delete_loop env bucket objects entries)
  unfolding delete_loop
  loop-Keeps3 [] entries = λ w c. c
  loop-Keeps3 (object ∷ rest) entries =
      bind-Keeps3 (outcome (delete_file env bucket object.key))
        (λ result. delete_loop env bucket rest (record_outcome object.key result entries))
        (delete-Keeps env state.storage bucket object.key)
        (λ result. loop-Keeps3 rest (record_outcome object.key result entries))

  post-Keeps3 : (query : Text → Option Text) → Keeps3 (bucket_post env bucket h web state r query)
  unfolding bucket_post
  post-Keeps3 query = verified env h web state r _ (
      bind-Keeps3 (lift (required_query (query (str "delete")))) _ (λ w c. c)
        (λ u.
          bind-Keeps3 (lift (parse_delete web r)) _ (λ w c. c)
            (λ request.
              bind-Keeps3 (delete_loop env bucket request.object ([], [])) _
                (loop-Keeps3 request.object ([], [])) (λ entries w c. c))))

pub handle-Keeps :
    (env : Env) (h : Hashes) (web : Web) (state : AppState) (r : Request) (call : Call) (w : World)
    → IsConsistent w
    → IsConsistent (handle env h web state r call w).1
unfolding handle
handle-Keeps env h web state r (Call.get_root order) = list-Keeps3 env h web state r order
handle-Keeps env h web state r (Call.put_bucket bucket) = create-Keeps3 env h web state r bucket
handle-Keeps env h web state r (Call.drop_bucket bucket) = drop-Keeps3 env h web state r bucket
handle-Keeps env h web state r (Call.get_bucket bucket query) =
    objects-Keeps3 env h web state r bucket query
handle-Keeps env h web state r (Call.post_bucket bucket query) =
    post-Keeps3 env bucket h web state r query
handle-Keeps env h web state r (Call.put_key bucket key) = put-Keeps3 env h web state r bucket key
handle-Keeps env h web state r (Call.get_key bucket key) = get-Keeps3 env h web state r bucket key
handle-Keeps env h web state r (Call.head_key bucket key) = head-Keeps3 env h web state r bucket key
handle-Keeps env h web state r (Call.drop_key bucket key) =
    delete-Keeps3 env h web state r bucket key
