-- ===== src/App/RoundTrip.antt =====
-- A file that was uploaded over HTTP and is then read over HTTP.
use rust_local_storage_cdn.Prelude.{
  sym, ◌∙◌, ap, ℕ, Text, Bytes, Bool, true, false, Option, none, some, find, text_eq, str,
  unwrap_or, ends_with, ok, err, ◌≡◌, inr,
}
use rust_local_storage_cdn.Errors.{StorageResult}
use rust_local_storage_cdn.Models.{StoredFile, FileInfo, file_info}
use rust_local_storage_cdn.World.{World, IsCalm, IsSound}
use rust_local_storage_cdn.Cache.{content_key}
use rust_local_storage_cdn.Storage.Encode.{StoreOptions}
use rust_local_storage_cdn.Storage.Store.{store_file, stored_row}
use rust_local_storage_cdn.Storage.Store.New.{store_file-IsStored}
use rust_local_storage_cdn.Storage.Fetch.{has_expired, get_file}
use rust_local_storage_cdn.Storage.Fetch.RoundTrip.{get_file-store_file}
use rust_local_storage_cdn.Handlers.Download.{
  AppState, full_content, require_download_token, handle_file_request, serve_content, fast_path,
  full_path,
}
use rust_local_storage_cdn.Handlers.Upload.{UploadQuery, upload_options, upload_file}
use rust_local_storage_cdn.Handlers.Upload.Laws.{upload_file-ok}
use rust_local_storage_cdn.Handlers.Filename.{
  upload_with_header, extract_filename_from_content_disposition,
}
use rust_local_storage_cdn.App.{
  Call, Crates, Reply, serve, dispatch, is_limited, is_mounted, concurrency_limiter, answer,
}

info-answer :
    (r : StorageResult FileInfo) (info : FileInfo)
    → answer (λ i. Reply.file_info i) r ≡ Reply.file_info info
    → r ≡ ok info
info-answer (ok i) info h = cc
info-answer (err e) info h = cc

module _ (c : Crates) (state : AppState) (bucket name : Text) where
  -- The row that was stored is the one that the answer shows.
  stored_type :
      (calm : IsCalm c.env) (sound : IsSound c.env) (content : Bytes) (content_type : Text)
      (opts : StoreOptions) (file : StoredFile) (w w' : World)
      → find (λ row. text_eq row.hash_blake3 (c.env.blake3 content)) w.files ≡ none
      → store_file c.env state.storage bucket name content (some content_type) opts w
        ≡ (ok file, w')
      → file.content_type ≡ content_type
  unfolding stored_row
  stored_type calm sound content content_type opts file w w' fresh h =
      let s =
        store_file-IsStored c.env calm sound state.storage bucket name content (some content_type)
          opts file w w' fresh h in
      ap (λ (f : StoredFile). f.content_type) s.is_row

  fetched :
      (token : Option Text) (content : Bytes) (content_type : Text) (w : World)
      → ends_with (str "/info") name ≡ false
      → require_download_token state (some bucket) token ≡ ok tt
      → c.header_value content_type ≡ true
      → (get_file c.env state.storage bucket name w).0 ≡ ok (content, some content_type)
      → (serve c state true (Call.fetch bucket name token none) w).0
        ≡ Reply.content (full_content (some content_type) content)
  unfolding serve dispatch is_limited is_mounted concurrency_limiter handle_file_request
      serve_content fast_path full_path
  fetched token content content_type w whole allowed header read = rw (allowed, whole, read, header)

  uploaded :
      (permit : Bool) (query : UploadQuery) (disposition : Option Bytes)
      (content_type content_length : Option Text) (content : Bytes) (info : FileInfo) (w w' : World)
      → extract_filename_from_content_disposition c.decoders disposition ≡ some name
      → serve c state permit
          (Call.upload bucket query disposition content_type content_length (ok content))
          w
        ≡ (Reply.file_info info, w')
      → upload_file c.env state.storage bucket query
          (some name)
          content_type
          content_length
          (ok content)
          w
        ≡ (ok info, w')
  unfolding serve dispatch is_limited is_mounted upload_with_header
  uploaded permit query disposition content_type content_length content info w w' named h =
      let call =
        upload_file c.env state.storage bucket query (some name) content_type content_length
          (ok content) in
      let answered = rw named at h in
      let good = info-answer (call w).0 info (ap (λ (x : Reply × World). x.0) answered) in
      ap (λ (r : StorageResult FileInfo). (r, (call w).1)) good
      ∙ ap (λ (v : World). (ok info, v)) (ap (λ (x : Reply × World). x.1) answered)

  -- Where no outside call fails and the crates keep their promises: an upload that answers with the
  -- information of the file, of content that no row holds yet, under a name that its header gives and
  -- that does not end in "/info", shows the content type of the request or the default one; and a
  -- request for the file that has a permit and whose token is accepted answers, at any later time
  -- before the expiry, with that type, where it may stand in a header, and with the content of the
  -- upload. The settings have compression enabled, and no content was cached under the name before.
  pub fetch-upload :
      (calm : IsCalm c.env) (sound : IsSound c.env) (permit : Bool) (query : UploadQuery)
      (disposition : Option Bytes) (content_type content_length : Option Text) (content : Bytes)
      (token : Option Text) (info : FileInfo) (w w' : World) (later : ℕ)
      → extract_filename_from_content_disposition c.decoders disposition ≡ some name
      → ends_with (str "/info") name ≡ false
      → find (λ row. text_eq row.hash_blake3 (c.env.blake3 content)) w.files ≡ none
      → state.storage.config.compression.enabled ≡ true
      → w.cache (content_key bucket name) ≡ none
      → serve c state permit
          (Call.upload bucket query disposition content_type content_length (ok content))
          w
        ≡ (Reply.file_info info, w')
      → has_expired info.expires_at later ≡ false
      → require_download_token state (some bucket) token ≡ ok tt
      → c.header_value info.content_type ≡ true
      → (info.content_type ≡ unwrap_or content_type (str "application/octet-stream"))
        × ((serve c state true (Call.fetch bucket name token none) (record w' { now = later })).0
            ≡ Reply.content (full_content (some info.content_type) content))
  unfolding file_info
  fetch-upload calm sound permit query disposition content_type content_length content token info w
        w' later named whole fresh on room answered live allowed header =
      let (expires_at, file, is_info, stored) =
        upload_file-ok c.env state.storage bucket query name content_type content_length content
          info w w'
          (uploaded permit query disposition content_type content_length content info w w' named
            answered) in
      let type = ap (λ (i : FileInfo). i.content_type) is_info in
      let expiry = ap (λ (i : FileInfo). i.expires_at) is_info in
      let given = unwrap_or content_type (str "application/octet-stream") in
      (
        type
            ∙ stored_type calm sound content given (upload_options query expires_at) file w w' fresh
                stored,
        fetched token content info.content_type (record w' { now = later }) whole allowed header
            (get_file-store_file c.env calm sound state.storage bucket name content (some given)
                (upload_options query expires_at) file w w' later fresh stored (λ yes. on)
                (inr room) (rw expiry at live)
              ∙ ap (λ (t : Text). ok (content, some t)) (sym type)),
      )
