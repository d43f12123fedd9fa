-- ===== src/App/Downloads.antt =====
-- A download keeps the tables consistent, whichever of the reads answers it.
use rust_local_storage_cdn.Prelude.{
  ℕ, Text, Bytes, Bool, Option, none, some, ok, err, arith, length, strip_prefix, ends_with, str,
  trim_end_matches, inl, inr, Bool-cases,
}
use rust_local_storage_cdn.Errors.{StorageResult}
use rust_local_storage_cdn.Models.{FileInfo}
use rust_local_storage_cdn.World.{Env}
use rust_local_storage_cdn.World.Actions.{pure, attempt, ◌>>◌}
use rust_local_storage_cdn.Storage.Fetch.{
  get_file, get_file_info, get_file_range_if_plain, get_compressed_file_range,
}
use rust_local_storage_cdn.Handlers.Range.{parse_range_header}
use rust_local_storage_cdn.Handlers.Download.{
  AppState, Response, json_info, handle_file_request, serve_info, serve_content, fast_path,
  full_path, part, compressed_part, plain_part, ranged, unsatisfiable, with_info, or_full_path,
  checked_type, slice_of, requested,
}
use rust_local_storage_cdn.App.Keeps.{
  Keeps, bind-Keeps, get-Keeps, info-Keeps, plain_range-Keeps, compressed_range-Keeps,
}

module _ (env : Env) (header_value : Text → Bool) (state : AppState) (bucket key : Text) where
  part-Keeps :
      (content_type : Text) (start end total : ℕ) (slice : Bytes)
      → Keeps (part env header_value state bucket key content_type start end total slice)
  part-Keeps content_type start end total slice w c = ground arith

  compressed_part-Keeps :
      (start end : ℕ) (r : StorageResult (Option (Bytes × Text × ℕ)))
      → Keeps (compressed_part env header_value state bucket key start end r)
  compressed_part-Keeps start end (ok (some (slice, content_type, total))) =
      part-Keeps content_type start end total slice
  compressed_part-Keeps start end (ok none) = λ w c. c
  compressed_part-Keeps start end (err e) = λ w c. c

  second-Keeps :
      (start end : ℕ) → Keeps (plain_part env header_value state bucket key start end (ok none))
  second-Keeps start end =
      bind-Keeps (attempt (get_compressed_file_range env state.storage bucket key start end))
        (compressed_part env header_value state bucket key start end)
        (compressed_range-Keeps env state.storage bucket key start end)
        (compressed_part-Keeps start end)

  plain_part-Keeps :
      (start end : ℕ) (r : StorageResult (Option (Bytes × Text × ℕ)))
      → Keeps (plain_part env header_value state bucket key start end r)
  plain_part-Keeps start end (ok (some (slice, content_type, total))) =
      part-Keeps content_type start end total slice
  plain_part-Keeps start end (ok none) = second-Keeps start end
  plain_part-Keeps start end (err e) = second-Keeps start end

  unsatisfiable-Keeps :
      (total : ℕ) (spec : Option Text)
      → Keeps (unsatisfiable env header_value state bucket key total spec)
  unsatisfiable-Keeps total none = λ w c. c
  unsatisfiable-Keeps total (some spec) = λ w c. ground arith

  ranged-Keeps :
      (value : Text) (total : ℕ) (range : Option (ℕ × ℕ))
      → Keeps (ranged env header_value state bucket key value total range)
  ranged-Keeps value total (some (start, end)) =
      bind-Keeps (attempt (get_file_range_if_plain env state.storage bucket key start end))
        (plain_part env header_value state bucket key start end)
        (plain_range-Keeps env state.storage bucket key start end) (plain_part-Keeps start end)
  ranged-Keeps value total none = unsatisfiable-Keeps total (strip_prefix (str "bytes=") value)

  with_info-Keeps :
      (value : Text) (r : StorageResult FileInfo)
      → Keeps (with_info env header_value state bucket key value r)
  with_info-Keeps value (ok info) =
      ranged-Keeps value info.original_size (parse_range_header value info.original_size)
  with_info-Keeps value (err e) = λ w c. c

  fast_path-Keeps :
      (range : Option Text) → Keeps (fast_path env header_value state bucket key range)
  unfolding fast_path
  fast_path-Keeps none = λ w c. c
  fast_path-Keeps (some value) =
      bind-Keeps (attempt (get_file_info env state.storage bucket key))
        (with_info env header_value state bucket key value)
        (info-Keeps env state.storage bucket key) (with_info-Keeps value)

  slice-Keeps :
      (content_type : Option Text) (content : Bytes) (range : Option (ℕ × ℕ))
      → Keeps (slice_of env header_value state bucket key content_type content range)
  slice-Keeps content_type content none = λ w c. c
  slice-Keeps content_type content (some (start, end)) = λ w c. ground arith

  checked_type-Keeps :
      (content_type : Option Text)
      → Keeps (checked_type env header_value state bucket key content_type)
  checked_type-Keeps none = λ w c. c
  checked_type-Keeps (some content_type) = λ w c. ground arith

  full_path-Keeps :
      (range : Option Text) → Keeps (full_path env header_value state bucket key range)
  unfolding full_path
  full_path-Keeps range =
      let sliced = λ (x : Bytes × Option Text).
        slice_of env header_value state bucket key x.1 x.0
          (requested env header_value state bucket key range (length x.0)) in
      bind-Keeps (get_file env state.storage bucket key)
        (λ x. checked_type env header_value state bucket key x.1 >> sliced x)
        (get-Keeps env state.storage bucket key)
        (λ x.
          bind-Keeps (checked_type env header_value state bucket key x.1) (λ u. sliced x)
            (checked_type-Keeps x.1)
            (λ u.
              slice-Keeps x.1 x.0 (requested env header_value state bucket key range (length x.0))))

  or_full_path-Keeps :
      (range : Option Text) (r : Option Response)
      → Keeps (or_full_path env header_value state bucket key range r)
  or_full_path-Keeps range (some response) = λ w c. c
  or_full_path-Keeps range none = full_path-Keeps range

  serve_content-Keeps :
      (range : Option Text) → Keeps (serve_content env header_value state bucket key range)
  unfolding serve_content
  serve_content-Keeps range =
      bind-Keeps (fast_path env header_value state bucket key range)
        (or_full_path env header_value state bucket key range) (fast_path-Keeps range)
        (or_full_path-Keeps range)

  serve_info-Keeps : Keeps (serve_info env header_value state bucket key)
  unfolding serve_info
  serve_info-Keeps =
      bind-Keeps (get_file_info env state.storage bucket key) (λ info. pure (json_info info))
        (info-Keeps env state.storage bucket key) (λ info w c. c)

pub request-Keeps :
    (env : Env) (header_value : Text → Bool) (state : AppState) (bucket path : Text)
    (token range : Option Text)
    → Keeps (handle_file_request env header_value state bucket path token range)
unfolding handle_file_request
request-Keeps env header_value state bucket path token range w c =
    elim (Bool-cases (ends_with (str "/info") path)) [
      | inl info ↦ rw info (
          ground (
            arith,
            serve_info-Keeps env header_value state bucket (trim_end_matches (str "/info") path) w,
          ))
      | inr other ↦
          rw other (ground (arith, serve_content-Keeps env header_value state bucket path range w))
    ]
