-- ===== src/Handlers/Filename.antt =====
-- `extract_filename_from_content_disposition` of local-storage/src/handlers/file_handlers.rs. The
-- decoding of percent escapes and of bytes that are not UTF-8 are parameters; of the spaces that `trim`
-- takes off, those outside ASCII are not followed.
use rust_local_storage_cdn.Prelude.{
  ℕ, zero, suc, ◌-◌, Text, Bytes, str, Bool, true, false, ◌&&◌, ◌||◌, Option, none, some, List, [],
  ◌∷◌, length, drop, leb, ◌==◌, if◌then◌else◌, starts_with, split_once, trim, unwrap_or, ◌≡◌, refl,
  Result,
}
use rust_local_storage_cdn.Models.{FileInfo}
use rust_local_storage_cdn.World.{Env}
use rust_local_storage_cdn.World.Actions.{Action}
use rust_local_storage_cdn.Storage.Encode.{StorageManager}
use rust_local_storage_cdn.Handlers.Upload.{UploadQuery, upload_file}

pub record Decoders : Type 0 where
  pub url_decode : Text → Option Text
  pub from_utf8_lossy : Bytes → Text

-- `HeaderValue::to_str` takes visible ASCII, the space and the tab.
abbrev visible : ℕ → Bool
visible c = (leb 32 c && leb c 126) || c == 9

all_visible : Bytes → Bool
all_visible [] = true
all_visible (c ∷ s) = visible c && all_visible s

unfoldable pub header_text : Decoders → Bytes → Text
unfolding all_visible
header_text d value = if all_visible value then value else d.from_utf8_lossy value

abbrev cons_first : ℕ → List Text → List Text
cons_first c [] = (c ∷ []) ∷ []
cons_first c (part ∷ parts) = (c ∷ part) ∷ parts

-- `str::split` at a text that is not empty; `skip` bytes of a separator are still to be passed over.
unfoldable pub split_text : Text → (skip : ℕ) → Text → List Text
split_text p skip [] = [] ∷ []
split_text p (suc skip) (c ∷ s) = split_text p skip s
split_text p zero (c ∷ s) = elim (starts_with p (c ∷ s)) [
  | true ↦ [] ∷ split_text p (length p - 1) s
  | false ↦ cons_first c (split_text p zero s)
]

-- The text before the closing byte, or all of it where there is none.
abbrev up_to_byte : ℕ → (rest whole : Text) → Text
up_to_byte b rest whole = elim (split_once b rest) [ none ↦ whole | some (name, after) ↦ name ]

unfoldable pub unquoted : Text → Text
unquoted [] = []
unquoted (c ∷ s) =
    if c == b'"'
    then up_to_byte b'"' s (c ∷ s)
    else if c == 39
    then up_to_byte 39 s (c ∷ s)
    else up_to_byte b';' (c ∷ s) (c ∷ s)

unfoldable pub decoded_name : Decoders → Text → Option Text
decoded_name d name =
    if starts_with (str "UTF-8''") name
    then d.url_decode (drop 7 name)
    else some (unwrap_or (d.url_decode name) name)

abbrev second_part : Decoders → List Text → Option Text
second_part d (before ∷ (part ∷ parts)) = decoded_name d (unquoted (trim part))
second_part d parts = none

unfoldable pub extract_filename_from_content_disposition : Decoders → Option Bytes → Option Text
extract_filename_from_content_disposition d none = none
extract_filename_from_content_disposition d (some value) =
    second_part d (split_text (str "filename=") 0 (header_text d value))

-- `upload_file` with the name that the header gives.
unfoldable pub upload_with_header :
    Env
    → Decoders
    → StorageManager
    → Text
    → UploadQuery
    → (disposition : Option Bytes) → (content_type content_length : Option Text)
    → (body : Result Text Bytes) → Action FileInfo
upload_with_header env d m bucket query disposition content_type content_length body =
    upload_file env m bucket query (extract_filename_from_content_disposition d disposition)
      content_type content_length body

abbrev plain : Decoders
plain = record { url_decode = λ s. some s; from_utf8_lossy = λ s. s }

filename_tests :
    (extract_filename_from_content_disposition plain
        (some (str "attachment; filename=\"a b.txt\"; x"))
      ≡ some (str "a b.txt"))
    × (extract_filename_from_content_disposition plain (some (str "attachment; filename= c.bin ;y"))
        ≡ some (str "c.bin "))
    × (extract_filename_from_content_disposition plain (some (str "filename=UTF-8''d"))
        ≡ some (str "d"))
    × (extract_filename_from_content_disposition plain (some (str "attachment; filename*=UTF-8''d"))
        ≡ none)
unfolding extract_filename_from_content_disposition split_text header_text starts_with decoded_name
    unquoted trim split_once
filename_tests = (refl, refl, refl, refl)
