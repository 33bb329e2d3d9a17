-- ===== src/Merkle/Scan.antt =====
-- `build_node` and `build_tree` of src/merkle_engine.cpp. A directory comes as the tree of its entries
-- with what the calls on each answer. Calls to the progress reporter are left out.
use caravault.Base.{
  ℕ, Bool, true, false, Option, none, some, List, [], ◌∷◌, ◌++◌, ◌=?◌, ◌==◌, ◌&&◌, not,
  if◌then◌else◌, Text, text_ord, text, is_empty, cmp_text,
}
use Prim.Native.Nat.{Ordering}
use caravault.Base.Results.{Result, ok, err, ◌>>=◌}
use caravault.VersionVector
use caravault.VersionVector.Json.{JsonError}
use caravault.Manifest.{FileMetadata, ManifestStore, get_file, upsert_file, upsert_merkle_node}
use caravault.Merkle.{MerkleNode, Children, node, hash_of, child_hashes, compute_directory_hash}

-- What the calls on a file answer; `none` is an error.
pub record FileFacts : Type 0 where
  pub size : Option ℕ
  pub mtime : Option ℕ
  pub content : Option Text

-- A directory that cannot be iterated is `unreadable`; what is neither file nor directory is `other`.
mutual
  pub data Entry : Type 0 where
    file : Text → FileFacts → Entry
    directory : Text → Entries → Entry
    unreadable : Text → Entry
    other : Text → Entry

  pub data Entries : Type 0 where
    nil : Entries
    cons : Entry → Entries → Entries

abbrev pub name_of : Entry → Text
name_of (file name facts) = name
name_of (directory name entries) = name
name_of (unreadable name) = name
name_of (other name) = name

unfoldable pub insert_entry : Entry → Entries → Entries
insert_entry e nil = cons e nil
insert_entry e (cons f entries) =
    let rest = insert_entry e entries in
    elim (cmp_text (name_of e) (name_of f)) [
      | Ordering.gt ↦ cons f rest
      | _ ↦ cons e (cons f entries)
    ]

-- `std::sort` of the entries of each directory.
unfoldable mutual
  pub sort_entry : Entry → Entry
  sort_entry (file name facts) = file name facts
  sort_entry (directory name entries) = directory name (sort_entries entries)
  sort_entry (unreadable name) = unreadable name
  sort_entry (other name) = other name

  pub sort_entries : Entries → Entries
  sort_entries nil = nil
  sort_entries (cons e entries) = insert_entry (sort_entry e) (sort_entries entries)

pub data Step : Type 0 where
  size_step mtime_step hash_step iterate_step : Step

-- `reason` tells the step that failed.
pub record ScanError : Type 0 where
  pub path : Text
  pub reason : Step

pub record Scan : Type 0 where
  pub store : ManifestStore
  pub errors : List ScanError

abbrev pub fail : Text → Step → Scan → Scan
fail path reason s = record s { errors = s.errors ++ record { path = path; reason = reason } ∷ [] }

unfoldable pub should_skip : Text → Bool
should_skip [] = false
should_skip (c ∷ name) = c == 46

-- A path relative to the root, which is `.` itself, where it has no links to resolve.
abbrev pub child_path : Text → Text → Text
child_path dir name = if dir =? text "." then name else dir ++ (text "/" ++ name)

abbrev pub leaf : Text → Text → MerkleNode
leaf path hash = node path hash 0 Children.nil

-- `FileMetadata{}` with the fields that are then assigned.
abbrev pub scanned : Text → Text → ℕ → ℕ → Option FileMetadata → FileMetadata
scanned path hash size mtime none = record {
  path = path;
  hash = hash;
  size = size;
  mtime = mtime;
  version_vector = VersionVector.empty;
  tombstone = false;
  corrupted = false;
  inode = none;
}
scanned path hash size mtime (some m) = record m {
  path = path;
  hash = hash;
  size = size;
  mtime = mtime;
  tombstone = false;
}

abbrev pub is_fresh : ℕ → ℕ → Option FileMetadata → Bool
is_fresh size mtime none = false
is_fresh size mtime (some m) = not (is_empty m.hash) && ((m.size == size) && (m.mtime == mtime))

-- What is thrown, with the store at that time.
abbrev pub Thrown : Type 0
Thrown = JsonError × ManifestStore

abbrev pub thrown_at : {A : Type 0} → ManifestStore → Result JsonError A → Result Thrown A
thrown_at s (ok a) = ok a
thrown_at s (err e) = err (e, s)

-- The file's entry is reused.
unfoldable pub reuse : Text → Option FileMetadata → Scan → MerkleNode × Scan
reuse path none s = (leaf path [], s)
reuse path (some m) s = (
  leaf path m.hash,
  (if m.tombstone
      then record s { store = upsert_file (record m { tombstone = false }) s.store }
      else s),
)

-- A child without a hash is dropped.
abbrev pub keep_child : Option MerkleNode → Children × Scan → Children × Scan
keep_child none (children, s) = (children, s)
keep_child (some child) (children, s) =
    ((if is_empty (hash_of child) then children else Children.cons child children), s)

-- The child of an entry that is a file or a directory.
abbrev pub some_child : MerkleNode × Scan → Result Thrown (Option MerkleNode × Scan)
some_child (child, s) = ok (some child, s)

abbrev pub is_other : Entry → Bool
is_other (other name) = true
is_other _ = false

module _ (sha256 : Text → Text) where
  unfoldable pub rehash :
      Text → ℕ → ℕ → Option FileMetadata → Option Text → Scan → MerkleNode × Scan
  rehash path size mtime cached none s = (leaf path [], fail path hash_step s)
  rehash path size mtime cached (some content) s = (
    leaf path (sha256 content),
    record s {
      store =
          upsert_file (scanned path (sha256 content) size mtime cached)
            (upsert_merkle_node path (sha256 content) 0 s.store);
    },
  )

  unfoldable pub build_cached :
      Text → ℕ → ℕ → Option Text → Scan → Option FileMetadata → MerkleNode × Scan
  build_cached path size mtime content s cached =
      if is_fresh size mtime cached
      then reuse path cached s
      else rehash path size mtime cached content s

  -- The calls for the size and the time come first.
  unfoldable pub build_stated :
      Text → Option Text → Scan → Option ℕ → Option ℕ → Result Thrown (MerkleNode × Scan)
  build_stated path content s none mtime = ok (leaf path [], fail path size_step s)
  build_stated path content s (some size) none = ok (leaf path [], fail path mtime_step s)
  build_stated path content s (some size) (some mtime) =
      thrown_at s.store (get_file path s.store) >>= λ cached.
      ok (build_cached path size mtime content s cached)

  abbrev pub build_file : Text → FileFacts → Scan → Result Thrown (MerkleNode × Scan)
  build_file path facts s = build_stated path facts.content s facts.size facts.mtime

  unfoldable pub build_directory : Text → Children × Scan → MerkleNode × Scan
  build_directory path (children, s) =
      let hash = compute_directory_hash sha256 (child_hashes children) in
      (node path hash 1 children, record s { store = upsert_merkle_node path hash 1 s.store })

  -- The entries are sorted already.
  unfoldable mutual
    pub build_node : Text → Entry → Scan → Result Thrown (MerkleNode × Scan)
    build_node path (file name facts) s =
        if should_skip name then ok (leaf path [], s) else build_file path facts s
    build_node path (directory name entries) s =
        let built = build_entries path entries s in
        if should_skip name
        then ok (leaf path [], s)
        else (built >>= λ r. ok (build_directory path r))
    build_node path (unreadable name) s =
        if should_skip name
        then ok (leaf path [], s)
        else ok
            (node path (compute_directory_hash sha256 []) 1 Children.nil, fail path iterate_step s)
    build_node path (other name) s = ok (leaf path [], s)

    pub build_entries : Text → Entries → Scan → Result Thrown (Children × Scan)
    build_entries path nil s = ok (Children.nil, s)
    build_entries path (cons e entries) s =
        let child =
          if is_other e
          then ok (none, s)
          else build_node (child_path path (name_of e)) e s >>= some_child in
        child >>= λ r. build_entries path entries r.1 >>= λ q. ok (keep_child r.0 q)

  unfoldable pub build_tree : Entry → ManifestStore → Result Thrown (MerkleNode × Scan)
  build_tree root store =
      build_node (text ".") (sort_entry root) (record { store = store; errors = [] })
