-- ===== src/Commands/Sweeping.antt =====
-- The tombstones that `do_scan` of src/main.cpp sets, over manifests that can be read.
use caravault.Base.{
  ℕ, ◌≡◌, refl, sym, ◌∙◌, ap, Bool, true, false, Option, none, some, List, [], ◌∷◌, ◌=?◌, =?_iff,
  if◌then◌else◌, any, arith, Text, text_ord, cmp_text_iff, Bool-cases, inl, inr, subst,
}
use caravault.Base.Map.Sorted.{or_else}
use caravault.Base.Results.{Result, ok}
use caravault.VersionVector.Json.{JsonError}
use caravault.Manifest.{FileMetadata, ManifestStore, get_file}
use caravault.Manifest.Tables.{NoNul}
use caravault.Manifest.Deletion.{tombstone_of, before_deletion, mark_deleted_lem}
use caravault.Manifest.Files.{IsReadable, IsSound}
use caravault.Conflict.Gathering.{last_file}
use caravault.Merkle.{MerkleNode}
use caravault.Merkle.Scan.{Scan}
use caravault.Commands.Listing.{IsTidyList, last_file-alone, last_file-skip, get_all_files-get_file}
use caravault.Commands.Scanning.{is_gone, tombstone_gone, leaves, sweep}

-- Entries of the manifest, no two of one path.
abbrev IsListed : ManifestStore → List FileMetadata → Type 0
IsListed s [] = Unit
IsListed s (f ∷ files) =
    NoNul f.path
    × (get_file f.path s ≡ ok (some f))
    × (last_file f.path files ≡ none)
    × IsListed s files

last_file-behind :
    (q : Text) (f g : FileMetadata) (files : List FileMetadata)
    → last_file q files ≡ some g
    → last_file q (f ∷ files) ≡ some g
unfolding last_file
last_file-behind q f g files e = rw e refl

IsListed-of_IsTidyList :
    (s : ManifestStore) (files : List FileMetadata)
    → IsTidyList files
    → ((q : Text) (g : FileMetadata)
        → NoNul q
        → last_file q files ≡ some g
        → get_file q s ≡ ok (some g))
    → IsListed s files
IsListed-of_IsTidyList s [] t h = tt
IsListed-of_IsTidyList s (f ∷ files) (k, alone, t) h = (
  k,
  h f.path f k (last_file-alone f.path f files refl alone),
  alone,
  IsListed-of_IsTidyList s files t λ q g k' e. h q g k' (last_file-behind q f g files e),
)

-- A listed path is not that of an entry before.
apart :
    (p : Text) (f : FileMetadata) (files : List FileMetadata)
    → last_file p (f ∷ files) ≡ none
    → ((p =? f.path) ≡ false) × (last_file p files ≡ none)
unfolding last_file
apart p f files e = both (p =? f.path) (last_file p files) e
  where
    both :
        (b : Bool) (o : Option FileMetadata)
        → or_else o (if b then some f else none) ≡ none
        → (b ≡ false) × (o ≡ none)
    both true none h = absurd (cc h)
    both false none h = (refl, refl)
    both b (some g) h = absurd (cc h)

-- Entries that are listed stay so where another path changes.
IsListed-kept :
    (p : Text) (s s' : ManifestStore) (files : List FileMetadata)
    → ((q : Text) → NoNul q → (p =? q) ≡ false → get_file q s' ≡ get_file q s)
    → last_file p files ≡ none
    → IsListed s files
    → IsListed s' files
IsListed-kept p s s' [] same e l = tt
IsListed-kept p s s' (f ∷ files) same e (k, found, alone, l) =
    let (ne, rest) = apart p f files e in
    (k, same f.path k ne ∙ found, alone, IsListed-kept p s s' files same rest l)

-- What the sweep makes of an entry: a tombstone where it is live and was not visited.
abbrev pub swept :
    List Text
    → Text
    → Result JsonError (Option FileMetadata)
    → Result JsonError (Option FileMetadata)
swept visited drive_id (ok (some f)) = ok (
    some (
      if f.tombstone
      then f
      else if any (λ p. p =? f.path) visited
      then f
      else tombstone_of drive_id f))
swept visited drive_id r = r

module _ (visited : List Text) (drive_id : Text) (now : ℕ) (id_clean : NoNul drive_id) where
  -- What the listed entries become.
  abbrev listed :
      Option FileMetadata
      → Result JsonError (Option FileMetadata)
      → Result JsonError (Option FileMetadata)
  listed none r = r
  listed (some f) r = if is_gone visited f then ok (some (tombstone_of drive_id f)) else r

  -- What the first entry becomes where it is of the path, and the others where it is not.
  listed-cons :
      (f : FileMetadata) (files : List FileMetadata) (q : Text)
      (r : Result JsonError (Option FileMetadata))
      → last_file f.path files ≡ none
      → listed (last_file q (f ∷ files)) r
        ≡ (if f.path =? q then listed (some f) r else listed (last_file q files) r)
  listed-cons f files q r alone = elim (Bool-cases (f.path =? q)) [
    | inl t ↦
        let own = (=?_iff f.path q).0 t in
        rw (t, last_file-alone q f files own (subst (λ p. last_file p files ≡ none) own alone)) refl
    | inr u ↦
        rw
          (
            u,
            last_file-skip q f files (ground (arith, cmp_text_iff f.path q, cmp_text_iff q f.path)),
          )
          refl
  ]

  listed-alone :
      (f : FileMetadata) (files : List FileMetadata) (q : Text)
      (r : Result JsonError (Option FileMetadata))
      → last_file f.path files ≡ none
      → (f.path =? q) ≡ true
      → listed (last_file q files) r ≡ r
  listed-alone f files q r alone t =
      rw (subst (λ p. last_file p files ≡ none) ((=?_iff f.path q).0 t) alone) refl

  tombstone_gone_lem :
      (files : List FileMetadata) (s : ManifestStore)
      → IsReadable s.files
      → IsListed s files
      → (s' : ManifestStore) × (tombstone_gone visited drive_id now files s ≡ ok s')
        × ((q : Text) → NoNul q → get_file q s' ≡ listed (last_file q files) (get_file q s))
        × IsReadable s'.files
  unfolding tombstone_gone
  tombstone_gone_lem [] s h l = (s, refl, (λ q k. unfold last_file in refl), h)
  tombstone_gone_lem (f ∷ files) s h (clean, found, alone, l) =
      elim (Bool-cases (is_gone visited f)) [
        | inr u ↦
            let (s', eq, at, h') = tombstone_gone_lem files s h l in
            (
              s',
              rw u eq,
              (λ q k. at q k ∙ (skipped q u ∙ sym (listed-cons f files q (get_file q s) alone))),
              h',
            )
        | inl t ↦
            let (s1, done, at1, tables, h1) =
              mark_deleted_lem f.path drive_id now s clean id_clean h in
            let same : (q : Text) → NoNul q → (f.path =? q) ≡ false → get_file q s1 ≡ get_file q s =
              λ q k e. at1 q k ∙ rw e refl in
            let (s', eq, at, h') =
              tombstone_gone_lem files s1 h1 (IsListed-kept f.path s s1 files same alone l) in
            (
              s',
              rw (t, done) eq,
              (λ q k.
                  at q k
                  ∙ (marked q k t s1 at1 ∙ sym (listed-cons f files q (get_file q s) alone))),
              h',
            )
      ]
    where
      skipped :
          (q : Text)
          → is_gone visited f ≡ false
          → listed (last_file q files) (get_file q s) ≡ (
              if f.path =? q
              then listed (some f) (get_file q s)
              else listed (last_file q files) (get_file q s))
      skipped q u = elim (Bool-cases (f.path =? q)) [
        | inl e ↦ rw (e, u) (listed-alone f files q (get_file q s) alone e)
        | inr e ↦ rw e refl
      ]

      marked :
          (q : Text)
          → NoNul q
          → is_gone visited f ≡ true
          → (s1 : ManifestStore)
          → ((q : Text)
              → NoNul q
              → get_file q s1 ≡ (
                  if f.path =? q
                  then ok (
                      some (tombstone_of drive_id (before_deletion f.path now (get_file f.path s))))
                  else get_file q s))
          → listed (last_file q files) (get_file q s1) ≡ (
              if f.path =? q
              then listed (some f) (get_file q s)
              else listed (last_file q files) (get_file q s))
      marked q k t s1 at1 = elim (Bool-cases (f.path =? q)) [
        | inl e ↦ listed-alone f files q (get_file q s1) alone e ∙ (at1 q k ∙ rw (e, t, found) refl)
        | inr e ↦ rw (at1 q k, e) refl
      ]

-- The sweep behind the scan of a tree does not throw. An entry that is live and of no leaf of the tree gets
-- a tombstone with the drive's clock advanced, and every other entry stays.
pub sweep_lem :
    (drive_id : Text) (now : ℕ) (tree : MerkleNode) (scan : Scan)
    → NoNul drive_id
    → IsSound scan.store
    → (s' : ManifestStore) × (sweep drive_id now (tree, scan) ≡ ok s')
      × ((q : Text)
          → NoNul q
          → get_file q s' ≡ swept (leaves tree) drive_id (get_file q scan.store))
      × IsReadable s'.files
unfolding sweep
sweep_lem drive_id now tree scan k (readable, unique) =
    let s = scan.store in
    let (ms, listed_all, found, tidy) = get_all_files-get_file s readable unique in
    let entries = IsListed-of_IsTidyList s ms tidy (λ q g k' e. found q k' ∙ ap ok e) in
    let (s', eq, at, readable') =
      tombstone_gone_lem (leaves tree) drive_id now k ms s readable entries in
    (s', rw listed_all eq, (λ q k'. at q k' ∙ rw (found q k') (same (last_file q ms))), readable')
  where
    same :
        (o : Option FileMetadata)
        → listed (leaves tree) drive_id now k o (ok o) ≡ swept (leaves tree) drive_id (ok o)
    same none = refl
    same (some f) = elim (Bool-cases f.tombstone) [
      | inl t ↦ rw t refl
      | inr u ↦ elim (Bool-cases (any (λ p. p =? f.path) (leaves tree))) [
        | inl t ↦ rw (u, t) refl
        | inr v ↦ rw (u, v) refl
      ]
    ]
