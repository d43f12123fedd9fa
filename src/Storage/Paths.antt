-- ===== src/Storage/Paths.antt =====
-- Where a file is kept: `get_file_path` of local-storage/src/storage.rs, `PathBuf::join`, and the
-- temporary path of local-storage/src/performance_optimizations.rs. Paths are texts with `/`.
use rust_local_storage_cdn.Prelude.{
  ◌==◌, ◌&&◌, ◌≡◌, refl, Text, str, text_eq, ◌||◌, Option, none, some, [], ◌∷◌, ◌++◌, starts_with,
  ends_with, split, split_once, reverse, last_or, if◌then◌else◌,
}

abbrev pub slash : Text
slash = str "/"

-- An absolute second path replaces the first; else a separator goes between, unless there is one.
unfoldable pub path_join : Text → Text → Text
path_join base path =
    if starts_with slash path
    then path
    else if text_eq base [] || ends_with slash base
    then base ++ path
    else base ++ (slash ++ path)

unfoldable pub get_file_path : (base bucket key : Text) → Text
unfolding path_join
get_file_path base bucket key = path_join (path_join base bucket) key

-- `key.split('/').last().unwrap_or(key)`
unfoldable pub filename_of : Text → Text
filename_of key = last_or key (split b'/' key)

-- The name without its extension: what stands before the last dot, unless that dot is the first
-- byte. The argument is the reversed name.
abbrev stem_of_split : Text → Option (Text × Text) → Text
stem_of_split name none = name
stem_of_split name (some (extension, [])) = name
stem_of_split name (some (extension, c ∷ s)) = reverse (c ∷ s)

unfoldable pub file_stem : Text → Text
file_stem name =
    if text_eq name (str "..") then name else stem_of_split name (split_once b'.' (reverse name))

-- `Path::components`: separators and `.` components at the end of a path do not count. The argument is
-- the reversed path; a single `.` is the current directory.
unfoldable pub trim_end : (reversed : Text) → Text
trim_end [] = []
trim_end (c ∷ []) = if c == b'/' then [] else c ∷ []
trim_end (c ∷ (d ∷ s)) =
    let after_slash = trim_end (d ∷ s) in
    let after_dot = trim_end s in
    if c == b'/' then after_slash else if c == b'.' && d == b'/' then after_dot else c ∷ (d ∷ s)

-- The directory part, with its slash, and the last name.
abbrev dir_and_name : Text → Option (Text × Text) → Text × Text
dir_and_name reversed none = ([], reverse reversed)
dir_and_name reversed (some (name, dir)) = (reverse (b'/' ∷ dir), reverse name)

-- `Path::parent` and the last component
unfoldable pub split_dir : Text → Text × Text
unfolding trim_end
split_dir path =
    let reversed = trim_end (reverse path) in dir_and_name reversed (split_once b'/' reversed)

-- `Path::with_extension("tmp")`: a path without a last name, or with `.` or `..` there, is left.
unfoldable pub temp_path : Text → Text
unfolding split_dir file_stem
temp_path path =
    let (dir, name) = split_dir path in
    if text_eq name [] || text_eq name (str ".") || text_eq name (str "..")
    then path
    else dir ++ (file_stem name ++ str ".tmp")

temp_tests :
    (temp_path (str "/s/b/x/.") ≡ str "/s/b/x.tmp")
    × (temp_path (str "/s/b/a.txt") ≡ str "/s/b/a.tmp")
    × (temp_path (str "/s/b/x.y/./") ≡ str "/s/b/x.tmp")
    × (temp_path (str "/s/b/..") ≡ str "/s/b/..")
    × (temp_path (str "/.") ≡ str "/.")
    × (temp_path (str "/s/b/.profile") ≡ str "/s/b/.profile.tmp")
unfolding temp_path trim_end text_eq split_once
temp_tests = (refl, refl, refl, refl, refl, refl)
