-- ===== src/S3/Router/Laws.antt =====
-- Which requests to the S3-compatible API are refused before anything happens.
use rust_local_storage_cdn.Prelude.{some, ok, err, ◌≡◌, ap, ◌∙◌, Result-cases, inl, inr}
use rust_local_storage_cdn.Config.{S3Config}
use rust_local_storage_cdn.World.{World, Env}
use rust_local_storage_cdn.Handlers.Download.{AppState}
use rust_local_storage_cdn.S3.Errors.{S3Error}
use rust_local_storage_cdn.S3.Auth.{Hashes, Request}
use rust_local_storage_cdn.S3.Auth.Verify.{verify_sigv4, IsSigned}
use rust_local_storage_cdn.S3.Auth.Laws.{verify_sigv4_iff}
use rust_local_storage_cdn.S3.Xml.{Web}
use rust_local_storage_cdn.S3.Handlers.{
  verify, require_s3_config, list_buckets, create_bucket, delete_bucket, list_objects_v2,
}
use rust_local_storage_cdn.S3.Handlers.Objects.{put_object, get_object, head_object, delete_object}
use rust_local_storage_cdn.S3.Handlers.Batch.{bucket_post}
use rust_local_storage_cdn.S3.Router.{Call, handle}

module _ (env : Env) (h : Hashes) (web : Web) (state : AppState) (r : Request) where
  handle-rejected :
      (call : Call) (w : World) (e : S3Error)
      → verify h state r w ≡ (err e, w)
      → handle env h web state r call w ≡ (err e, w)
  unfolding handle list_buckets create_bucket delete_bucket list_objects_v2 bucket_post put_object
      get_object head_object delete_object
  handle-rejected (Call.get_root order) w e bad = rw bad
  handle-rejected (Call.put_bucket bucket) w e bad = rw bad
  handle-rejected (Call.drop_bucket bucket) w e bad = rw bad
  handle-rejected (Call.get_bucket bucket query) w e bad = rw bad
  handle-rejected (Call.post_bucket bucket query) w e bad = rw bad
  handle-rejected (Call.put_key bucket key) w e bad = rw bad
  handle-rejected (Call.get_key bucket key) w e bad = rw bad
  handle-rejected (Call.head_key bucket key) w e bad = rw bad
  handle-rejected (Call.drop_key bucket key) w e bad = rw bad

  verify-eq :
      (cfg : S3Config) (w : World)
      → state.s3_config ≡ some cfg
      → verify h state r w ≡ (verify_sigv4 h w.now r cfg, w)
  unfolding verify require_s3_config
  verify-eq cfg w set = rw set

  pub verify-IsSigned :
      (cfg : S3Config) (w : World)
      → state.s3_config ≡ some cfg
      → IsSigned h w.now r cfg
      → verify h state r w ≡ (ok tt, w)
  verify-IsSigned cfg w set signed =
      verify-eq cfg w set ∙ ap (λ x. (x, w)) ((verify_sigv4_iff h w.now r cfg).1 signed)

  -- Where credentials are configured, a request to any route that is not signed with them ends with an
  -- error, and nothing has been read or changed.
  pub handle-unsigned :
      (call : Call) (w : World) (cfg : S3Config)
      → state.s3_config ≡ some cfg
      → ¬ IsSigned h w.now r cfg
      → (e : S3Error) × (handle env h web state r call w ≡ (err e, w))
  handle-unsigned call w cfg set unsigned = elim (Result-cases (verify_sigv4 h w.now r cfg)) [
    | inl (u, good) ↦ absurd (unsigned ((verify_sigv4_iff h w.now r cfg).0 good))
    | inr (e, bad) ↦ (e, handle-rejected call w e (verify-eq cfg w set ∙ ap (λ x. (x, w)) bad))
  ]
