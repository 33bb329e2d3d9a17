-- ===== src/Manifest/Files.antt =====
-- The methods of src/manifest_store.cpp that read and write files, over what a row can hold.
use caravault.Base.{
  ◌≡◌, refl, true, Option, none, some, List, [], ◌∷◌, ◌=?◌, ◌∙◌, ◌⊎◌, inl, inr, Bool-cases, ap, sym,
  =?_iff, if◌then◌else◌, Text, text_ord,
}
use caravault.Base.Results.{ok}
use caravault.VersionVector.Clocks.{IsValid}
use caravault.VersionVector.Json.{to_json}
use caravault.VersionVector.Json.RoundTrip.{from_json-to_json}
use caravault.Manifest.{
  FileMetadata, FileRow, ManifestStore, c_str, find_row, upsert, has_path, file_row, upsert_file,
  row_to_file_metadata, get_file, delete_file,
}
use caravault.Manifest.Tables.{
  NoNul, CleanIds, c_str_of_NoNul, NoNul-to_json, find_row-upsert, find_row-delete_rows,
  HasUniquePaths, upsert-HasUniquePaths,
}

-- Metadata that a row can hold: no string has a NUL byte, and the version vector is a map of
-- 64-bit clocks in the order of its keys.
pub record IsStorable (m : FileMetadata) : Type 0 where
  pub path : NoNul m.path
  pub hash : NoNul m.hash
  pub drive_ids : CleanIds m.version_vector.clocks
  pub vector : IsValid m.version_vector

pub row_to_file_metadata-file_row :
    (m : FileMetadata) → IsStorable m → row_to_file_metadata (file_row m) ≡ ok m
unfolding row_to_file_metadata file_row
row_to_file_metadata-file_row m c = rw (
  c_str_of_NoNul (to_json m.version_vector) (NoNul-to_json m.version_vector c.drive_ids),
  from_json-to_json m.version_vector c.vector,
  c_str_of_NoNul m.path c.path,
  c_str_of_NoNul m.hash c.hash,
)

pub path-file_row : (m : FileMetadata) → (file_row m).path ≡ c_str m.path
unfolding file_row
path-file_row m = refl

-- What was written is read back whole, through the JSON text of its version vector, and the entry
-- of every other path stays.
pub get_file-upsert_file :
    (m : FileMetadata) (s : ManifestStore) (q : Text)
    → IsStorable m
    → NoNul q
    → get_file q (upsert_file m s) ≡ (if m.path =? q then ok (some m) else get_file q s)
unfolding get_file upsert_file
get_file-upsert_file m s q c k =
    rw (c_str_of_NoNul q k, c_str_of_NoNul m.path c.path)
      (rw
        (find_row-upsert m.path q (file_row m) s.files
          (path-file_row m ∙ c_str_of_NoNul m.path c.path))
        (elim (Bool-cases (m.path =? q)) [
          | inl t ↦ rw t (rw (row_to_file_metadata-file_row m c))
          | inr t ↦ rw t
        ]))

-- After `delete_file` the path has no entry, and the entry of every other path stays.
pub get_file-delete_file :
    (path q : Text) (s : ManifestStore)
    → NoNul path
    → NoNul q
    → get_file q (delete_file path s) ≡ (if path =? q then ok none else get_file q s)
unfolding get_file delete_file
get_file-delete_file path q s h k =
    rw (c_str_of_NoNul q k, c_str_of_NoNul path h)
      (rw (find_row-delete_rows path q s.files)
        (elim (Bool-cases (path =? q)) [ inl t ↦ rw t | inr t ↦ rw t ]))

-- `upsert_file` keeps paths unique.
pub upsert_file-HasUniquePaths :
    (m : FileMetadata) (s : ManifestStore)
    → HasUniquePaths s.files
    → HasUniquePaths (upsert_file m s).files
unfolding upsert_file
upsert_file-HasUniquePaths m s u =
    upsert-HasUniquePaths (c_str m.path) (file_row m) s.files (path-file_row m) u

-- Every row was written from metadata that a row can hold.
abbrev pub IsReadable : List FileRow → Type 0
IsReadable [] = Unit
IsReadable (r ∷ rows) = ((m : FileMetadata) × IsStorable m × (r ≡ file_row m)) × IsReadable rows

upsert-IsReadable :
    (p : Text) (m : FileMetadata) (rows : List FileRow)
    → IsStorable m
    → IsReadable rows
    → IsReadable (upsert (has_path p) (file_row m) rows)
unfolding upsert
upsert-IsReadable p m [] c h = ((m, c, refl), tt)
upsert-IsReadable p m (r ∷ rows) c (g, h) = elim (Bool-cases (has_path p r)) [
  | inl t ↦ rw t ((m, c, refl), h)
  | inr t ↦ rw t (g, upsert-IsReadable p m rows c h)
]

-- Writing keeps a manifest readable.
pub upsert_file-IsReadable :
    (m : FileMetadata) (s : ManifestStore)
    → IsStorable m
    → IsReadable s.files
    → IsReadable (upsert_file m s).files
unfolding upsert_file
upsert_file-IsReadable m s c h = upsert-IsReadable (c_str m.path) m s.files c h

abbrev Finds : Text → Option FileRow → Type 0
Finds q o =
    (o ≡ none) ⊎ ((m : FileMetadata) × (o ≡ some (file_row m)) × IsStorable m × (m.path ≡ q))

find_row-IsReadable :
    (q : Text) (rows : List FileRow) → IsReadable rows → Finds q (find_row (has_path q) rows)
unfolding find_row
find_row-IsReadable q [] h = inl refl
find_row-IsReadable q (r ∷ rows) ((m, c, e), h) = elim (Bool-cases (has_path q r)) [
  | inl t ↦ rw t (inr (m, ap some e, c, own t))
  | inr t ↦ rw t (find_row-IsReadable q rows h)
]
  where
    own : has_path q r ≡ true → m.path ≡ q
    own t =
        sym (c_str_of_NoNul m.path c.path)
        ∙ (sym (path-file_row m) ∙ ap (λ (x : FileRow). x.path) (sym e) ∙ (=?_iff r.path q).0 t)

-- In a readable manifest `get_file` does not throw, and what it finds is of the path asked for.
pub get_file_total :
    (q : Text) (s : ManifestStore)
    → NoNul q
    → IsReadable s.files
    → (get_file q s ≡ ok none)
      ⊎ ((m : FileMetadata) × (get_file q s ≡ ok (some m)) × IsStorable m × (m.path ≡ q))
unfolding get_file
get_file_total q s k h = rw (c_str_of_NoNul q k) (elim (find_row-IsReadable q s.files h) [
  | inl e ↦ inl (rw e)
  | inr (m, e, c, g) ↦ inr (m, rw e (rw (row_to_file_metadata-file_row m c)), c, g)
])

-- In a readable manifest no look-up throws.
pub get_file_ok :
    (q : Text) (s : ManifestStore)
    → IsReadable s.files
    → (o : Option FileMetadata) × (get_file q s ≡ ok o)
unfolding get_file
get_file_ok q s h = elim (find_row-IsReadable (c_str q) s.files h) [
  | inl e ↦ (none, rw e refl)
  | inr (m, e, c, g) ↦ (some m, rw e (rw (row_to_file_metadata-file_row m c) refl))
]

-- Every row can be read, and no two have one path.
abbrev pub IsSound : ManifestStore → Type 0
IsSound s = IsReadable s.files × HasUniquePaths s.files

pub upsert_file-IsSound :
    (m : FileMetadata) (s : ManifestStore) → IsStorable m → IsSound s → IsSound (upsert_file m s)
upsert_file-IsSound m s c (readable, unique) =
    (upsert_file-IsReadable m s c readable, upsert_file-HasUniquePaths m s unique)
