-- ===== src/Tests/PutWitnesses.antt =====
-- Putting an object and getting it through the S3-compatible API at concrete inputs.
use rust_local_storage_cdn.Prelude.{
  [], ◌∷◌, str, some, ok, ◌≡◌, refl, inl, text_eq, strip_prefix, split, split_once, trim,
}
use rust_local_storage_cdn.World.{World}
use rust_local_storage_cdn.Models.{FileInfo}
use rust_local_storage_cdn.S3.Auth.{Request, parse_authorization, take_parts, credential_parts}
use rust_local_storage_cdn.S3.Auth.Compare.{constant_time_eq, or_bits, xor_bits}
use rust_local_storage_cdn.S3.Auth.Verify.{verify_sigv4, hashed_payload, computed_signature}
use rust_local_storage_cdn.S3.Handlers.{verify, require_s3_config, etag}
use rust_local_storage_cdn.S3.Handlers.Objects.{put_object, get_object, object_response}
use rust_local_storage_cdn.S3.Handlers.RoundTrip.{get_object-put_object}
use rust_local_storage_cdn.Tests.AuthWitnesses.{hashes, request}
use rust_local_storage_cdn.Tests.S3Witnesses.{open_state, web}
use rust_local_storage_cdn.Tests.StoreWitnesses.{upload, row_in, store_sample}
use rust_local_storage_cdn.Tests.Samples.{env, calm, sound, content, empty_world}

abbrev putting : Request
putting = record request { method = str "PUT"; body = content }

abbrev later : World
later = record upload.1 { now = 90 }

accepted_put :
    (verify hashes open_state putting empty_world ≡ (ok tt, empty_world))
    × (verify hashes open_state request later ≡ (ok tt, later))
unfolding verify require_s3_config verify_sigv4 text_eq parse_authorization strip_prefix take_parts
    split trim credential_parts split_once hashed_payload constant_time_eq computed_signature
    or_bits xor_bits
accepted_put = (refl, refl)

get_object-put_object_example :
    (put_object env hashes web open_state putting (str "b") (str "k") empty_world ≡ (
      ok (record { status = 200; headers = (str "etag", etag (env.md5 content)) ∷ []; body = [] }),
      upload.1,
    ))
    × ((info : FileInfo) × ((get_object env hashes web open_state request
            (str "b")
            (str "k")
            later).0
          ≡ ok (object_response web content (some (row_in upload.0).content_type) info))
        × (info.hash_md5 ≡ env.md5 content))
unfolding text_eq
get_object-put_object_example =
    get_object-put_object env calm sound hashes web open_state putting request (str "b") (str "k")
      (row_in upload.0) empty_world upload.1 90 accepted_put.0 refl refl refl store_sample.0
      (λ yes. refl) (inl store_sample.1) accepted_put.1 refl
