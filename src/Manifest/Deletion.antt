-- ===== src/Manifest/Deletion.antt =====
-- `mark_deleted` of src/manifest_store.cpp, over a manifest that can be read.
use caravault.Base.{
  ℕ, ◌≡◌, refl, true, Option, some, arith, Text, text_ord, if◌then◌else◌, inl, inr, ◌=?◌, [], ◌∷◌,
}
use caravault.Base.Map
use caravault.Base.Map.{Map}
use caravault.Base.Results.{Result, ok}
use caravault.VersionVector.{increment}
use caravault.VersionVector.Clocks.{increment-IsValid, empty-IsValid}
use caravault.VersionVector.Json.{JsonError}
use caravault.Manifest.{
  FileMetadata, ManifestStore, get_file, upsert_file, mark_deleted, new_tombstone,
}
use caravault.Manifest.Tables.{NoNul, CleanIds}
use caravault.Manifest.Files.{
  IsStorable, IsReadable, get_file_total, get_file-upsert_file, upsert_file-IsReadable,
}

pub insert-CleanIds :
    (d : Text) (n : ℕ) (m : Map Text ℕ) → NoNul d → CleanIds m → CleanIds (Map.insert d n m)
unfolding Map.insert
insert-CleanIds d n [] h c = (h, tt)
insert-CleanIds d n ((e, k) ∷ m) h (p, c) = ground (arith, insert-CleanIds d n m h c)

-- The entry that a deletion starts from: the one in the manifest, or a fresh one.
abbrev pub before_deletion : Text → ℕ → Result JsonError (Option FileMetadata) → FileMetadata
before_deletion path now (ok (some m)) = m
before_deletion path now _ = new_tombstone path now

abbrev pub tombstone_of : Text → FileMetadata → FileMetadata
tombstone_of drive_id m = record m {
  tombstone = true;
  version_vector = increment drive_id m.version_vector;
}

tombstone-IsStorable :
    (d : Text) (m : FileMetadata) → NoNul d → IsStorable m → IsStorable (tombstone_of d m)
tombstone-IsStorable d m h c = record {
  path = c.path;
  hash = c.hash;
  drive_ids = unfold increment in insert-CleanIds d _ m.version_vector.clocks h c.drive_ids;
  vector = increment-IsValid d m.version_vector c.vector;
}

-- The tables besides that of the files are the same.
abbrev pub KeepsTables : ManifestStore → ManifestStore → Type 0
KeepsTables s t =
    (t.drives ≡ s.drives)
    × (t.merkle_nodes ≡ s.merkle_nodes)
    × (t.transaction_log ≡ s.transaction_log)
    × (t.last_id ≡ s.last_id)

module _ (path drive_id : Text) (now : ℕ) (s : ManifestStore) (path_clean : NoNul path)
    (id_clean : NoNul drive_id) (readable : IsReadable s.files) where
  -- In a readable manifest `mark_deleted` does not throw. Afterwards the path, known before or not,
  -- has the entry that it had with the tombstone set and the clock of the drive advanced; every
  -- other path has the entry that it had, the other tables are as they were, and the manifest is readable.
  pub mark_deleted_lem :
      let m = tombstone_of drive_id (before_deletion path now (get_file path s)) in
      (s' : ManifestStore) × (mark_deleted path drive_id now s ≡ ok s')
      × ((q : Text) → NoNul q → get_file q s' ≡ (if path =? q then ok (some m) else get_file q s))
      × KeepsTables s s'
      × IsReadable s'.files
  unfolding mark_deleted
  mark_deleted_lem = elim (get_file_total path s path_clean readable) [
    | inl e ↦
        let m = new_tombstone path now in
        let c : IsStorable m = record {
          path = path_clean;
          hash = tt;
          drive_ids = tt;
          vector = empty-IsValid;
        } in
        rw e (result m c refl)
    | inr (m, e, c, own) ↦ rw e (result m c own)
  ]
    where
      result :
          (m : FileMetadata)
          → IsStorable m
          → m.path ≡ path
          → (s' : ManifestStore) × (◌≡◌ {A = Result JsonError ManifestStore}
              (ok (upsert_file (tombstone_of drive_id m) s))
              (ok s'))
            × ((q : Text)
                → NoNul q
                → get_file q s'
                  ≡ (if path =? q then ok (some (tombstone_of drive_id m)) else get_file q s))
            × KeepsTables s s'
            × IsReadable s'.files
      result m c own =
          let c' = tombstone-IsStorable drive_id m id_clean c in
          (
            upsert_file (tombstone_of drive_id m) s,
            refl,
            λ q k. rw (← own) (get_file-upsert_file (tombstone_of drive_id m) s q c' k),
            (unfold upsert_file in (refl, refl, refl, refl)),
            upsert_file-IsReadable (tombstone_of drive_id m) s c' readable,
          )
