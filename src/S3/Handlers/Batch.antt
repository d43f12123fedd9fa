-- ===== src/S3/Handlers/Batch.antt =====
-- local-storage/src/s3/handlers.rs: `bucket_post`, which deletes many objects.
use rust_local_storage_cdn.Prelude.{
  Text, str, Option, none, some, List, [], ◌∷◌, ◌++◌, ok, err, ok_or, if◌then◌else◌, map_err,
  and_then, from_utf8,
}
use rust_local_storage_cdn.Errors.{StorageResult, display}
use rust_local_storage_cdn.World.{Env}
use rust_local_storage_cdn.Storage.Remove.{delete_file}
use rust_local_storage_cdn.Handlers.Download.{AppState}
use rust_local_storage_cdn.S3.Errors.{S3Result, invalid_request}
use rust_local_storage_cdn.S3.Auth.{Hashes, Request}
use rust_local_storage_cdn.S3.Actions.{S3Action, pure, lift, ◌>>=◌, ◌>>◌, outcome}
use rust_local_storage_cdn.S3.Xml.{
  Web, Document, DeleteRequest, ObjectIdentifier, DeletedEntry, DeleteErrorEntry, DeleteResult,
  xmlns,
}
use rust_local_storage_cdn.S3.Handlers.{Response, verify, xml_response}
use rust_local_storage_cdn.S3.Handlers.Objects.{is_done}

-- What the loop has pushed so far.
abbrev pub Entries : Type 0
Entries = List DeletedEntry × List DeleteErrorEntry

abbrev error_entry : Text → StorageResult (Unit {0}) → List DeleteErrorEntry
error_entry key (ok _) = []
error_entry key (err e) = record { key = key; code = str "InternalError"; message = display e } ∷ []

unfoldable pub record_outcome : Text → StorageResult (Unit {0}) → Entries → Entries
record_outcome key result (deleted, errors) =
    if is_done result
    then (deleted ++ record { key = key } ∷ [], errors)
    else (deleted, errors ++ error_entry key result)

unfoldable pub delete_result : Entries → DeleteResult
delete_result (deleted, errors) = record { xmlns = xmlns; deleted = deleted; error = errors }

unfoldable pub parse_delete : Web → Request → S3Result DeleteRequest
parse_delete web r =
    and_then
      (ok_or (from_utf8 r.body) (invalid_request (str "Delete request body is not valid UTF-8")))
      (λ text.
        map_err (λ e. invalid_request (str "Invalid Delete XML body: " ++ e)) (web.from_str text))

abbrev pub required_query : Option Text → S3Result (Unit {0})
required_query none = err (invalid_request (str "Unsupported POST operation on bucket"))
required_query (some v) = ok tt

module _ (env : Env) (bucket : Text) where
  -- The loop over the objects of the request.
  unfoldable pub delete_loop : List ObjectIdentifier → Entries → S3Action Entries
  delete_loop [] entries = pure entries
  delete_loop (object ∷ rest) entries = do
    result ← outcome (delete_file env bucket object.key)
    delete_loop rest (record_outcome object.key result entries)

  unfoldable pub bucket_post :
      Hashes → Web → AppState → Request → (query : Text → Option Text) → S3Action Response
  bucket_post h web state r query = do
    verify h state r
    lift (required_query (query (str "delete")))
    request ← lift (parse_delete web r)
    entries ← delete_loop request.object ([], [])
    pure (xml_response web (Document.delete_result (delete_result entries)))
