-- ===== src/Executor/Recovery.antt =====
-- `recover_incomplete_operations` of src/executor.cpp.
use caravault.Base.{
  ℕ, Option, none, some, List, [], ◌∷◌, ◌=?◌, ◌==◌, ◌++◌, if◌then◌else◌, Text, text_ord, text, not,
  is_empty,
}
use caravault.Base.Results.{Result, ok, err}
use caravault.VersionVector.Json.{JsonError}
use caravault.Manifest.{
  FileMetadata, ManifestStore, PendingOperation, get_file, complete_operation,
  get_incomplete_operations,
}
use caravault.Executor.Disk.{World, fault, tick, exists, rename_file, remove_file}
use caravault.Executor.Writing.{tmp_path, verify_hash}

pub data RecoveryError : Type 0 where
  store_error : JsonError → RecoveryError
  filesystem_error : RecoveryError

abbrev pub Recovered : Type 0
Recovered = Option RecoveryError × World × ManifestStore

abbrev keep_name : Text → List Text → List Text
keep_name [] names = names
keep_name (c ∷ n) names = (c ∷ n) ∷ names

-- The text before the first slash, and the names behind it, of which none is empty.
unfoldable pub first_name : Text → Text × List Text
first_name [] = ([], [])
first_name (c ∷ path) =
    let (n, names) = first_name path in if c == 47 then ([], keep_name n names) else (c ∷ n, names)

abbrev names_of : Text → List Text
names_of path = let (n, names) = first_name path in keep_name n names

-- A step up for each name.
unfoldable pub steps_up : List Text → List Text → List Text
steps_up [] names = names
steps_up (r ∷ root) names = text ".." ∷ steps_up root names

-- The way from one directory to a path.
unfoldable pub way : List Text → List Text → List Text
way [] names = names
way (r ∷ root) [] = steps_up (r ∷ root) []
way (r ∷ root) (n ∷ names) =
    let inside = way root names in if r =? n then inside else steps_up (r ∷ root) (n ∷ names)

unfoldable pub slashed : List Text → Text
slashed [] = text "."
slashed (n ∷ []) = n
slashed (n ∷ m ∷ names) = n ++ (47 ∷ slashed (m ∷ names))

-- `fs::relative(path, root)`, where no name is a link, `.` or `..`.
abbrev pub relative : Text → Text → Text
relative path root = slashed (way (names_of root) (names_of path))

-- The rename of a temporary file that is valid.
unfoldable pub complete_rename : Text → World → World
complete_rename target w =
    if fault w
    then remove_file (tmp_path target) (tick w)
    else rename_file (tmp_path target) target w

-- After the body: what it threw ends the loop.
abbrev pub and_complete : ℕ → Recovered → Recovered
and_complete id (some e, w, s) = (some e, w, s)
and_complete id (none, w, s) = (none, w, complete_operation id s)

module _ (sha256 : Text → Text) where
  unfoldable pub settle : Text → Option FileMetadata → World → World
  settle target none w = remove_file (tmp_path target) w
  settle target (some meta) w =
      if not (is_empty meta.hash)
      then (if verify_hash sha256 (tmp_path target) meta.hash w
          then complete_rename target (tick w)
          else remove_file (tmp_path target) (tick w))
      else remove_file (tmp_path target) w

  unfoldable pub settle_read :
      Text → Result JsonError (Option FileMetadata) → World → ManifestStore → Recovered
  settle_read target (err e) w s = (some (store_error e), w, s)
  settle_read target (ok meta) w s = (none, settle target meta w, s)

  -- The body of the loop before `complete_operation`.
  unfoldable pub recover_write : Text → PendingOperation → World → ManifestStore → Recovered
  recover_write root op w s =
      if not (op.operation =? text "WRITE")
      then (none, w, s)
      else if fault w
      then (some filesystem_error, tick w, s)
      else if not (exists (tmp_path op.path) w)
      then (none, tick w, s)
      else let rel = if fault (tick w) then op.path else relative op.path root in
        settle_read op.path (get_file rel s) (tick (tick w)) s

  unfoldable pub recover_all : Text → List PendingOperation → Recovered → Recovered
  recover_all root ops (some e, w, s) = (some e, w, s)
  recover_all root [] (none, w, s) = (none, w, s)
  recover_all root (op ∷ ops) (none, w, s) =
      recover_all root ops (and_complete op.id (recover_write root op w s))

  unfoldable pub recover_incomplete_operations : Text → World → ManifestStore → Recovered
  recover_incomplete_operations root w s =
      recover_all root (get_incomplete_operations s) (none, w, s)
