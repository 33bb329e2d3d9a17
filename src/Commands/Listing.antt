-- ===== src/Commands/Listing.antt =====
-- `get_all_files` against `get_file`, and the manifests that the commands of src/main.cpp read.
use caravault.Base.{
  ◌≡◌, refl, sym, ◌∙◌, false, Option, none, some, List, [], ◌∷◌, ◌=?◌, =?_iff, arith, Text,
  text_ord, cmp_text_iff, Bool-cases, inl, inr, subst, ap,
}
use caravault.Base.Map.Sorted.{or_else}
use caravault.Base.Results.{ok}
use caravault.Manifest.{
  FileMetadata, FileRow, ManifestStore, find_row, has_path, get_file, get_all_files,
  row_to_file_metadata, read_row, read_rows, file_row,
}
use caravault.Manifest.Tables.{NoNul, c_str_of_NoNul, HasUniquePaths}
use caravault.Manifest.Files.{IsReadable, IsStorable, row_to_file_metadata-file_row, path-file_row}
use caravault.Conflict.Gathering.{last_file}

-- The row that is found holds the entry that was listed, and where none is found none was listed.
abbrev Agrees : Option FileRow → Option FileMetadata → Type 0
Agrees none o = o ≡ none
Agrees (some r) o = (m : FileMetadata) × (row_to_file_metadata r ≡ ok m) × (o ≡ some m)

path_of_row : (m : FileMetadata) (r : FileRow) → IsStorable m → r ≡ file_row m → r.path ≡ m.path
path_of_row m r c e =
    ap (λ (x : FileRow). x.path) e ∙ (path-file_row m ∙ c_str_of_NoNul m.path c.path)

pub last_file-alone :
    (q : Text) (m : FileMetadata) (ms : List FileMetadata)
    → m.path ≡ q
    → last_file q ms ≡ none
    → last_file q (m ∷ ms) ≡ some m
unfolding last_file
last_file-alone q m ms e f = rw f (ground (arith, e, cmp_text_iff q m.path))

or_none : (o : Option FileMetadata) → or_else o none ≡ o
or_none none = refl
or_none (some m) = refl

pub last_file-skip :
    (q : Text) (m : FileMetadata) (ms : List FileMetadata)
    → (q =? m.path) ≡ false
    → last_file q (m ∷ ms) ≡ last_file q ms
unfolding last_file
last_file-skip q m ms f = rw f (or_none (last_file q ms))

-- Paths without NUL, each once.
abbrev pub IsTidyList : List FileMetadata → Type 0
IsTidyList [] = Unit
IsTidyList (m ∷ ms) = NoNul m.path × (last_file m.path ms ≡ none) × IsTidyList ms

read_rows-Agrees :
    (rows : List FileRow)
    → IsReadable rows
    → HasUniquePaths rows
    → (ms : List FileMetadata) × (read_rows rows ≡ ok ms)
      × ((q : Text) → Agrees (find_row (has_path q) rows) (last_file q ms))
      × IsTidyList ms
unfolding read_rows find_row
read_rows-Agrees [] h u = ([], refl, (λ q. unfold last_file in refl), tt)
read_rows-Agrees (r ∷ rows) ((m, c, e), h) (alone, u) =
    let (ms, read, agree, tidy) = read_rows-Agrees rows h u in
    let decoded : row_to_file_metadata r ≡ ok m = rw e (row_to_file_metadata-file_row m c) in
    let gone : (q : Text) → r.path ≡ q → last_file q ms ≡ none = λ q own.
      subst (λ o. Agrees o (last_file q ms))
        (subst (λ p. find_row (has_path p) rows ≡ none) own alone) (agree q) in
    let same = path_of_row m r c e in
    (
      m ∷ ms,
      rw (decoded, read) refl,
      (λ q. elim (Bool-cases (has_path q r)) [
        | inl t ↦
            let own = (=?_iff r.path q).0 t in
            rw t (m, decoded, last_file-alone q m ms (sym same ∙ own) (gone q own))
        | inr f ↦ rw (f, last_file-skip q m ms (other q f)) (agree q)
      ]),
      (c.path, gone m.path same, tidy),
    )
  where
    other : (q : Text) → has_path q r ≡ false → (q =? m.path) ≡ false
    other q f = ground (arith, path_of_row m r c e, cmp_text_iff r.path q, cmp_text_iff q m.path)

-- In a readable manifest with unique paths `get_all_files` does not throw, what it lists for a path is what
-- `get_file` finds, and it lists no path twice.
pub get_all_files-get_file :
    (s : ManifestStore)
    → IsReadable s.files
    → HasUniquePaths s.files
    → (ms : List FileMetadata) × (get_all_files s ≡ ok ms)
      × ((q : Text) → NoNul q → get_file q s ≡ ok (last_file q ms))
      × IsTidyList ms
unfolding get_all_files get_file read_row
get_all_files-get_file s h u =
    let (ms, read, agree, tidy) = read_rows-Agrees s.files h u in
    (
      ms,
      read,
      (λ q k. rw (c_str_of_NoNul q k) (read_of q ms (find_row (has_path q) s.files) (agree q))),
      tidy,
    )
  where
    read_of :
        (q : Text) (ms : List FileMetadata) (o : Option FileRow)
        → Agrees o (last_file q ms)
        → read_row o ≡ ok (last_file q ms)
    read_of q ms none e = rw e refl
    read_of q ms (some r) (m, decoded, e) = rw (decoded, e) refl
