-- ===== src/Tests/Json.antt =====
-- A concrete format for rows in which every row comes back, in the place of serde_json.
use rust_local_storage_cdn.Prelude.{
  ℕ, zero, suc, Text, Bytes, str, Bool, true, false, Option, none, some, [], ◌∷◌, ◌++◌, length,
  take, drop, take_exact, drop_exact, ℤ, pos, negsuc, Result, ok, err, ◌≡◌, refl,
}
use rust_local_storage_cdn.Models.{Ratio, StoredFile}

pub record Format (A : Type 0) : Type 0 where
  print : A → Bytes → Bytes
  parse : Bytes → Option (A × Bytes)
  back : (a : A) (rest : Bytes) → parse (print a rest) ≡ some (a, rest)

abbrev parse_nat : Bytes → Option (ℕ × Bytes)
parse_nat [] = none
parse_nat (n ∷ rest) = some (n, rest)

abbrev nat : Format ℕ
nat = record { print = λ n rest. n ∷ rest; parse = parse_nat; back = λ n rest. refl }

abbrev paired : {A B : Type 0} → A → Option (B × Bytes) → Option ((A × B) × Bytes)
paired a none = none
paired a (some (b, rest)) = some ((a, b), rest)

abbrev on_rest : {A B : Type 0} → Format B → Option (A × Bytes) → Option ((A × B) × Bytes)
on_rest g none = none
on_rest g (some (a, rest)) = paired a (g.parse rest)

pair-back :
    {A B : Type 0} (f : Format A) (g : Format B) (a : A) (b : B) (rest : Bytes)
    → on_rest g (f.parse (f.print a (g.print b rest))) ≡ some ((a, b), rest)
pair-back f g a b rest = rw (f.back a (g.print b rest), g.back b rest)

pair : {A B : Type 0} → Format A → Format B → Format (A × B)
pair f g = record {
  print = λ p rest. f.print p.0 (g.print p.1 rest);
  parse = λ bytes. on_rest g (f.parse bytes);
  back = λ p rest. pair-back f g p.0 p.1 rest;
}

abbrev parse_text : Bytes → Option (Text × Bytes)
parse_text [] = none
parse_text (n ∷ rest) = some (take n rest, drop n rest)

text : Format Text
text = record {
  print = λ s rest. length s ∷ s ++ rest;
  parse = parse_text;
  back = λ s rest. rw (take_exact s rest, drop_exact s rest);
}

abbrev print_option : {A : Type 0} → Format A → Option A → Bytes → Bytes
print_option f none rest = 0 ∷ rest
print_option f (some a) rest = 1 ∷ f.print a rest

abbrev present : {A : Type 0} → Option (A × Bytes) → Option (Option A × Bytes)
present none = none
present (some (a, rest)) = some (some a, rest)

abbrev parse_option : {A : Type 0} → Format A → Bytes → Option (Option A × Bytes)
parse_option f [] = none
parse_option f (zero ∷ rest) = some (none, rest)
parse_option f (suc n ∷ rest) = present (f.parse rest)

option-back :
    {A : Type 0} (f : Format A) (a : Option A) (rest : Bytes)
    → parse_option f (print_option f a rest) ≡ some (a, rest)
option-back f none rest = refl
option-back f (some a) rest = rw (f.back a rest)

option : {A : Type 0} → Format A → Format (Option A)
option f = record { print = print_option f; parse = parse_option f; back = option-back f }

-- A type whose values are some of another's.
via : {A B : Type 0} → Format A → (to : B → A) → (of : A → B) → ((b : B) → of (to b) ≡ b) → Format B
via f to of same = record {
  print = λ b rest. f.print (to b) rest;
  parse = λ bytes. elim (f.parse bytes) [ none ↦ none | some (a, rest) ↦ some (of a, rest) ];
  back = λ b rest. rw (f.back (to b) rest, same b);
}

abbrev bool_code : Bool → ℕ
bool_code true = 1
bool_code false = 0

abbrev bool_of : ℕ → Bool
bool_of zero = false
bool_of (suc n) = true

bool_back : (b : Bool) → bool_of (bool_code b) ≡ b
bool_back true = refl
bool_back false = refl

bool : Format Bool
bool = via nat bool_code bool_of bool_back

abbrev int_code : ℤ → ℕ × ℕ
int_code (pos n) = (0, n)
int_code (negsuc n) = (1, n)

abbrev int_of : ℕ × ℕ → ℤ
int_of (zero, n) = pos n
int_of (suc k, n) = negsuc n

int_back : (z : ℤ) → int_of (int_code z) ≡ z
int_back (pos n) = refl
int_back (negsuc n) = refl

int : Format ℤ
int = via (pair nat nat) int_code int_of int_back

ratio : Format Ratio
ratio =
    via (pair nat nat) (λ r. (r.stored, r.original)) (λ (s, o). record { stored = s; original = o })
      (λ r. refl)

pub row : Format StoredFile
row =
    via
      (pair (pair nat (pair text (pair text (pair text (pair text (pair nat nat)))))) (
        pair
          (pair text (
            pair text (
              pair text
                (pair (option text) (pair (option bool) (pair (option bool) (option text)))))))
          (pair
            (pair (option text) (
              pair (option ratio) (
                pair (option nat)
                  (pair (option nat) (pair nat (pair (option text) (option bool)))))))
            (pair (option bool) (
              pair (option int) (
                pair (option text)
                  (pair (option nat) (pair (option nat) (pair (option int) (option nat))))))))))
      (λ file. (
        (
          file.id,
          (
            file.bucket,
            (file.key, (file.filename, (file.file_path, (file.file_size, file.original_size)))),
          ),
        ),
        (
          (
            file.content_type,
            (
              file.hash_blake3,
              (
                file.hash_md5,
                (
                  file.metadata,
                  (file.is_compressed, (file.is_encrypted, file.compression_algorithm)),
                ),
              ),
            ),
          ),
          (
            (
              file.encryption_algorithm,
              (
                file.compression_ratio,
                (
                  file.upload_time,
                  (
                    file.last_accessed,
                    (file.access_count, (file.encryption_key_id, file.compression_enabled)),
                  ),
                ),
              ),
            ),
            (
              file.encryption_enabled,
              (
                file.compression_level,
                (
                  file.cache_status,
                  (
                    file.last_cache_update,
                    (file.cache_hits, (file.cache_priority, file.expires_at)),
                  ),
                ),
              ),
            ),
          ),
        ),
      ))
      (λ (
        (id, (bucket, (key, (filename, (file_path, (file_size, original_size)))))),
        (
          (
            content_type,
            (
              hash_blake3,
              (hash_md5, (metadata, (is_compressed, (is_encrypted, compression_algorithm)))),
            ),
          ),
          (
            (
              encryption_algorithm,
              (
                compression_ratio,
                (
                  upload_time,
                  (last_accessed, (access_count, (encryption_key_id, compression_enabled))),
                ),
              ),
            ),
            (
              encryption_enabled,
              (
                compression_level,
                (cache_status, (last_cache_update, (cache_hits, (cache_priority, expires_at)))),
              ),
            ),
          ),
        ),
      ).
        record {
          id = id;
          bucket = bucket;
          key = key;
          filename = filename;
          file_path = file_path;
          file_size = file_size;
          original_size = original_size;
          content_type = content_type;
          hash_blake3 = hash_blake3;
          hash_md5 = hash_md5;
          metadata = metadata;
          is_compressed = is_compressed;
          is_encrypted = is_encrypted;
          compression_algorithm = compression_algorithm;
          encryption_algorithm = encryption_algorithm;
          compression_ratio = compression_ratio;
          upload_time = upload_time;
          last_accessed = last_accessed;
          access_count = access_count;
          encryption_key_id = encryption_key_id;
          compression_enabled = compression_enabled;
          encryption_enabled = encryption_enabled;
          compression_level = compression_level;
          cache_status = cache_status;
          last_cache_update = last_cache_update;
          cache_hits = cache_hits;
          cache_priority = cache_priority;
          expires_at = expires_at;
        })
      (λ file. refl)

unfoldable pub to_vec : StoredFile → Result Text Bytes
to_vec file = ok (row.print file [])

abbrev parsed_row : Option (StoredFile × Bytes) → Result Text StoredFile
parsed_row none = err (str "not a row")
parsed_row (some (file, rest)) = ok file

pub from_slice : Bytes → Result Text StoredFile
from_slice bytes = parsed_row (row.parse bytes)

-- What a row is printed as is parsed to the row.
pub json_round_trip :
    (file : StoredFile) → (bytes : Bytes) × (to_vec file ≡ ok bytes) × (from_slice bytes ≡ ok file)
unfolding to_vec from_slice
json_round_trip file = (row.print file [], refl, rw (row.back file []))
