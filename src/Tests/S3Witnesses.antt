-- ===== src/Tests/S3Witnesses.antt =====
-- The theorems about the S3-compatible API at concrete inputs.
use Prim.Native.Nat.{min}
use mathlib.Core.List.{Perm}
use rust_local_storage_cdn.Models.{StoredFile, file_info}
use rust_local_storage_cdn.Database.{has_prefix}
use rust_local_storage_cdn.Database.Order.{IsNewestFirst}
use rust_local_storage_cdn.S3.Handlers.{content_entry}
use rust_local_storage_cdn.Prelude.{
  List, ◌++◌, map, filter, ◌+◌, Text, text_eq, str, Bool, Option, none, some, [], ◌∷◌, ◌&&◌, length,
  ltb, if◌then◌else◌, ok, err, ◌≡◌, refl, strip_prefix, split, split_once, trim, from_utf8,
}
use rust_local_storage_cdn.World.{World}
use rust_local_storage_cdn.Handlers.Download.{AppState}
use rust_local_storage_cdn.S3.Errors.{S3Error}
use rust_local_storage_cdn.S3.Auth.{Request, parse_authorization, take_parts, credential_parts}
use rust_local_storage_cdn.S3.Auth.Compare.{constant_time_eq, or_bits, xor_bits}
use rust_local_storage_cdn.S3.Auth.Verify.{
  verify_sigv4, hashed_payload, computed_signature, IsSigned,
}
use rust_local_storage_cdn.S3.Xml.{Web, Document, DeleteRequest, ListBucketResult}
use rust_local_storage_cdn.S3.Handlers.{
  ListObjectsQuery, verify, require_s3_config, xml_response, list_objects_v2,
}
use rust_local_storage_cdn.S3.Handlers.Batch.{Entries, bucket_post, parse_delete, delete_result}
use rust_local_storage_cdn.S3.Handlers.Deletes.{AllAbsent, bucket_post-AllAbsent}
use rust_local_storage_cdn.S3.Handlers.Listing.{rows_asked, list_objects_v2-page}
use rust_local_storage_cdn.S3.Router.{Call, handle}
use rust_local_storage_cdn.S3.Router.Laws.{handle-unsigned}
use rust_local_storage_cdn.Tests.AuthWitnesses.{hashes, request, credentials}
use rust_local_storage_cdn.Tests.Samples.{env, calm, manager, shared_world}

abbrev pub open_state : AppState
open_state = record {
  storage = manager;
  s3_config = some credentials;
  download_protection_token = none;
  protected_read_buckets = none;
}

abbrev parsed : DeleteRequest
parsed = record { object = record { key = str "a" } ∷ record { key = str "z" } ∷ [] }

abbrev pub web : Web
web = record {
  to_string = λ d. ok (str "<x/>");
  from_str = λ s. ok parsed;
  to_rfc3339 = λ t. str "1970-01-01T00:00:00+00:00";
  header_value = λ v. Bool.true;
  header_error = λ v. str "failed to parse header value";
}

accepted : verify hashes open_state request shared_world ≡ (ok tt, shared_world)
unfolding verify require_s3_config verify_sigv4 text_eq parse_authorization strip_prefix take_parts
    split trim credential_parts split_once hashed_payload constant_time_eq computed_signature
    or_bits xor_bits
accepted = refl

abbrev pub unsigned : Request
unsigned = record request { headers = λ name. none }

unsigned_sample : ¬ IsSigned hashes 50 unsigned credentials
unsigned_sample (header, parts, date, time, payload, e1, e2, e3, e4, e5, e6, e7, e8) = cc

abbrev dropping : Call
dropping = Call.drop_key (str "b") (str "a")

handle-unsigned_example :
    (e : S3Error) × (handle env hashes web open_state unsigned dropping shared_world
      ≡ (err e, shared_world))
handle-unsigned_example =
    handle-unsigned env hashes web open_state unsigned dropping shared_world credentials refl
      unsigned_sample

abbrev deletes : Text → Option Text
deletes name = if text_eq name (str "delete") then some [] else none

asked : deletes (str "delete") ≡ some []
unfolding text_eq
asked = refl

parses : parse_delete web request ≡ ok parsed
unfolding parse_delete from_utf8
parses = refl

bucket_post-AllAbsent_example :
    (final : Entries) × (w' : World) × (bucket_post env
        (str "b")
        hashes
        web
        open_state
        request
        deletes
        shared_world
      ≡ (ok (xml_response web (Document.delete_result (delete_result final))), w'))
    × (length final.0 + length final.1 ≡ 2)
    × AllAbsent (str "b") w' final.0
bucket_post-AllAbsent_example =
    bucket_post-AllAbsent env (str "b") hashes web open_state request deletes shared_world [] parsed
      accepted asked parses

abbrev first_page : ListObjectsQuery
first_page = record { prefix = none; max_keys = none }

list_objects_v2-page_example :
    (result : ListBucketResult) × (shown : List StoredFile) × (left : List StoredFile)
    × (list_objects_v2 env hashes web open_state request (str "b") first_page shared_world
        ≡ (ok (xml_response web (Document.list_bucket result)), shared_world))
    × (result.contents ≡ map (content_entry web) (map file_info shown))
    × Perm
        (shown ++ left)
        (filter (λ row. text_eq row.bucket (str "b") && has_prefix env none row) shared_world.files)
    × IsNewestFirst (shown ++ left)
    × (result.is_truncated ≡ ltb 0 (length left))
    × (length shown ≡ min (rows_asked none) (length (shown ++ left)))
list_objects_v2-page_example =
    list_objects_v2-page env calm hashes web open_state request (str "b") first_page shared_world
      accepted
