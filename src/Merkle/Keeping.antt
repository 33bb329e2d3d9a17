-- ===== src/Merkle/Keeping.antt =====
-- The manifest during a scan by src/merkle_engine.cpp.
use caravault.Base.{
  ℕ, ◌≡◌, refl, false, Option, none, some, [], ◌++◌, ◌=?◌, if◌then◌else◌, arith, Text, text_ord,
  text, Bool-cases, subst, inl, inr,
}
use caravault.Base.Results.{Result, ok, err, ◌>>=◌}
use caravault.VersionVector.Clocks.{empty-IsValid}
use caravault.Manifest.{FileMetadata, ManifestStore, upsert_merkle_node}
use caravault.Manifest.Tables.{NoNul, NoNul-append}
use caravault.Manifest.Files.{IsSound, IsStorable, upsert_file-IsSound, get_file_total}
use caravault.Merkle.{MerkleNode, Children}
use caravault.Merkle.Scan.{
  Entry, Entries, file, directory, unreadable, other, name_of, insert_entry, sort_entry,
  sort_entries, Scan, Thrown, should_skip, child_path, scanned, is_fresh, reuse, rehash,
  build_cached, build_stated, build_directory, keep_child, some_child, is_other, build_node,
  build_entries, build_tree,
}

-- No name has a NUL byte.
abbrev mutual
  pub HasCleanNames : Entry → Type 0
  HasCleanNames (file name facts) = NoNul name
  HasCleanNames (directory name entries) = NoNul name × HaveCleanNames entries
  HasCleanNames (unreadable name) = NoNul name
  HasCleanNames (other name) = NoNul name

  pub HaveCleanNames : Entries → Type 0
  HaveCleanNames Entries.nil = Unit
  HaveCleanNames (Entries.cons e entries) = HasCleanNames e × HaveCleanNames entries

insert_entry-HaveCleanNames :
    (e : Entry) (entries : Entries)
    → HasCleanNames e
    → HaveCleanNames entries
    → HaveCleanNames (insert_entry e entries)
unfolding insert_entry
insert_entry-HaveCleanNames e Entries.nil h k = (h, tt)
insert_entry-HaveCleanNames e (Entries.cons f entries) h (p, k) =
    ground (arith, insert_entry-HaveCleanNames e entries h k)

mutual
  unfolding sort_entry sort_entries

  sort_entry-HasCleanNames : (e : Entry) → HasCleanNames e → HasCleanNames (sort_entry e)
  sort_entry-HasCleanNames (file name facts) h = h
  sort_entry-HasCleanNames (directory name entries) (h, k) =
      (h, sort_entries-HaveCleanNames entries k)
  sort_entry-HasCleanNames (unreadable name) h = h
  sort_entry-HasCleanNames (other name) h = h

  sort_entries-HaveCleanNames :
      (entries : Entries) → HaveCleanNames entries → HaveCleanNames (sort_entries entries)
  sort_entries-HaveCleanNames Entries.nil h = tt
  sort_entries-HaveCleanNames (Entries.cons e entries) (h, k) =
      insert_entry-HaveCleanNames (sort_entry e) (sort_entries entries)
        (sort_entry-HasCleanNames e h) (sort_entries-HaveCleanNames entries k)

NoNul-name_of : (e : Entry) → HasCleanNames e → NoNul (name_of e)
NoNul-name_of (file name facts) h = h
NoNul-name_of (directory name entries) (h, k) = h
NoNul-name_of (unreadable name) h = h
NoNul-name_of (other name) h = h

NoNul-child_path : (dir name : Text) → NoNul dir → NoNul name → NoNul (child_path dir name)
NoNul-child_path dir name h k = elim (Bool-cases (dir =? text ".")) [
  | inl t ↦ rw t k
  | inr u ↦ rw u (NoNul-append dir (text "/" ++ name) h (omega arith, k))
]

-- Nothing is thrown, and the manifest is sound.
abbrev pub IsBuilt : {A : Type 0} → Result Thrown (A × Scan) → Type 0
IsBuilt (ok (a, s)) = IsSound s.store
IsBuilt (err e) = ⊥

IsBuilt-bind :
    {A B : Type 0} (r : Result Thrown (A × Scan)) (f : A × Scan → Result Thrown (B × Scan))
    → IsBuilt r
    → ((a : A) (s : Scan) → IsSound s.store → IsBuilt (f (a, s)))
    → IsBuilt (r >>= f)
IsBuilt-bind (ok (a, s)) f h k = k a s h
IsBuilt-bind (err e) f h k = absurd h

upsert_merkle_node-IsSound :
    (path hash : Text) (level : ℕ) (s : ManifestStore)
    → IsSound s
    → IsSound (upsert_merkle_node path hash level s)
unfolding upsert_merkle_node
upsert_merkle_node-IsSound path hash level s h = h

scanned-IsStorable :
    (path hash : Text) (size mtime : ℕ) (cached : Option FileMetadata)
    → NoNul path
    → NoNul hash
    → ((m : FileMetadata) → cached ≡ some m → IsStorable m)
    → IsStorable (scanned path hash size mtime cached)
scanned-IsStorable path hash size mtime none h k c = record {
  path = h;
  hash = k;
  drive_ids = tt;
  vector = empty-IsValid;
}
scanned-IsStorable path hash size mtime (some m) h k c =
    let old = c m refl in
    record { path = h; hash = k; drive_ids = old.drive_ids; vector = old.vector }

reuse-IsSound :
    (path : Text) (cached : Option FileMetadata) (s : Scan)
    → ((m : FileMetadata) → cached ≡ some m → IsStorable m)
    → IsSound s.store
    → IsSound (reuse path cached s).1.store
unfolding reuse
reuse-IsSound path none s c h = h
reuse-IsSound path (some m) s c h = elim (Bool-cases m.tombstone) [
  | inl t ↦
      let old = c m refl in
      let revived : IsStorable (record m { tombstone = false }) = record {
        path = old.path;
        hash = old.hash;
        drive_ids = old.drive_ids;
        vector = old.vector;
      } in
      rw t (upsert_file-IsSound (record m { tombstone = false }) s.store revived h)
  | inr u ↦ rw u h
]

keep_child-IsSound :
    (found : Option MerkleNode) (children : Children) (s : Scan)
    → IsSound s.store
    → IsSound (keep_child found (children, s)).1.store
keep_child-IsSound none children s h = h
keep_child-IsSound (some child) children s h = h

module _ (sha256 : Text → Text) (hash_clean : (t : Text) → NoNul (sha256 t)) where
  rehash-IsSound :
      (path : Text) (size mtime : ℕ) (cached : Option FileMetadata) (content : Option Text)
      (s : Scan)
      → NoNul path
      → ((m : FileMetadata) → cached ≡ some m → IsStorable m)
      → IsSound s.store
      → IsSound (rehash sha256 path size mtime cached content s).1.store
  unfolding rehash
  rehash-IsSound path size mtime cached none s k c h = h
  rehash-IsSound path size mtime cached (some content) s k c h =
      upsert_file-IsSound (scanned path (sha256 content) size mtime cached)
        (upsert_merkle_node path (sha256 content) 0 s.store)
        (scanned-IsStorable path (sha256 content) size mtime cached k (hash_clean content) c)
        (upsert_merkle_node-IsSound path (sha256 content) 0 s.store h)

  build_cached-IsSound :
      (path : Text) (size mtime : ℕ) (content : Option Text) (s : Scan)
      (cached : Option FileMetadata)
      → NoNul path
      → ((m : FileMetadata) → cached ≡ some m → IsStorable m)
      → IsSound s.store
      → IsSound (build_cached sha256 path size mtime content s cached).1.store
  unfolding build_cached
  build_cached-IsSound path size mtime content s cached k c h =
      elim (Bool-cases (is_fresh size mtime cached)) [
        | inl t ↦ rw t (reuse-IsSound path cached s c h)
        | inr u ↦ rw u (rehash-IsSound path size mtime cached content s k c h)
      ]

  build_stated-IsBuilt :
      (path : Text) (content : Option Text) (s : Scan) (size mtime : Option ℕ)
      → NoNul path
      → IsSound s.store
      → IsBuilt (build_stated sha256 path content s size mtime)
  unfolding build_stated
  build_stated-IsBuilt path content s none mtime k h = h
  build_stated-IsBuilt path content s (some size) none k h = h
  build_stated-IsBuilt path content s (some size) (some mtime) k h =
      elim (get_file_total path s.store k h.0) [
        | inl e ↦
            rw e (build_cached-IsSound path size mtime content s none k (λ m e'. absurd (cc e')) h)
        | inr (m, e, c, own) ↦ rw e (
            build_cached-IsSound path size mtime content s (some m) k
              (λ m' e'. subst IsStorable (cc e') c) h)
      ]

  mutual
    unfolding build_node build_entries build_directory

    build_node-IsBuilt :
        (path : Text) (e : Entry) (s : Scan)
        → NoNul path
        → HasCleanNames e
        → IsSound s.store
        → IsBuilt (build_node sha256 path e s)
    build_node-IsBuilt path (file name facts) s k c h = elim (Bool-cases (should_skip name)) [
      | inl t ↦ rw t h
      | inr u ↦ rw u (build_stated-IsBuilt path facts.content s facts.size facts.mtime k h)
    ]
    build_node-IsBuilt path (directory name entries) s k (c, cs) h =
        elim (Bool-cases (should_skip name)) [
          | inl t ↦ rw t h
          | inr u ↦ rw u (
              IsBuilt-bind (build_entries sha256 path entries s) _
                (build_entries-IsBuilt path entries s k cs h)
                λ children s' h'. upsert_merkle_node-IsSound path _ 1 s'.store h')
        ]
    build_node-IsBuilt path (unreadable name) s k c h = elim (Bool-cases (should_skip name)) [
      | inl t ↦ rw t h
      | inr u ↦ rw u h
    ]
    build_node-IsBuilt path (other name) s k c h = h

    build_entries-IsBuilt :
        (path : Text) (entries : Entries) (s : Scan)
        → NoNul path
        → HaveCleanNames entries
        → IsSound s.store
        → IsBuilt (build_entries sha256 path entries s)
    build_entries-IsBuilt path Entries.nil s k c h = h
    build_entries-IsBuilt path (Entries.cons e entries) s k (c, cs) h =
        let at = child_path path (name_of e) in
        let child : IsBuilt
            (if is_other e then ok (none, s) else build_node sha256 at e s >>= some_child) =
          elim (Bool-cases (is_other e)) [
            | inl t ↦ rw t h
            | inr u ↦ rw u (
                IsBuilt-bind (build_node sha256 at e s) some_child
                  (build_node-IsBuilt at e s
                    (NoNul-child_path path (name_of e) k (NoNul-name_of e c)) c h)
                  λ n s' h'. h')
          ] in
        IsBuilt-bind _ _ child λ found s' h'.
          IsBuilt-bind (build_entries sha256 path entries s') _
            (build_entries-IsBuilt path entries s' k cs h')
            λ children s'' h''. keep_child-IsSound found children s'' h''

  -- A scan of a sound manifest does not throw, and leaves it sound.
  pub build_tree-IsBuilt :
      (root : Entry) (store : ManifestStore)
      → HasCleanNames root
      → IsSound store
      → IsBuilt (build_tree sha256 root store)
  unfolding build_tree
  build_tree-IsBuilt root store c h =
      build_node-IsBuilt (text ".") (sort_entry root) (record { store = store; errors = [] })
        (omega arith, tt) (sort_entry-HasCleanNames root c) h
