-- ===== src/Conflict/Resolve.antt =====
-- `resolve` of src/conflict_resolver.cpp: what justifies the strategy and the drive that it reports.
use caravault.Base.{
  ℕ, ◌*◌, ◌≤◌, ◌<◌, ◌≡◌, ◌⊎◌, inl, inr, refl, true, false, Option, none, some, List, [], ◌∷◌, arith,
  Text, text_ord, Bool-cases, ltb, length, ltb→lt,
}
use caravault.Base.Map
use caravault.Base.Map.{Map}
use caravault.Base.Map.Sorted
use caravault.Manifest.{FileMetadata}
use caravault.Conflict.{
  Versions, ConflictInfo, Resolution, ResolutionStrategy, dominant_version, majority_quorum,
  tombstone_wins, last_write_wins, copy_all_versions, manual_resolution, resolve, dominant_or_later,
  quorum_or_later, tombstone_or_latest, last_write, find_dominant, find_quorum, find_tombstone,
  group_by_hash, latest,
}
use caravault.Conflict.Strategies.{IsDominant, find_dominant_sound, find_dominant_complete}
use caravault.Conflict.Votes.{
  voters, HasQuorum, IsVoter, group_by_hash-IsSorted, lookup-group_by_hash, find_quorum_sound,
  find_quorum_complete, front-voters, find_tombstone_sound, find_tombstone_complete, latest_bound,
  latest-IsSource, IsSource,
}

-- No version covers all the others.
abbrev pub NoDominant : Versions → Type 0
NoDominant versions = (w : Text) → ¬ (IsDominant versions w)

-- No hash has a quorum; with no drives registered there is no vote.
abbrev pub NoQuorum : Versions → ℕ → Type 0
NoQuorum versions total = (total ≡ 0) ⊎ ((hash : Text) → ¬ (HasQuorum versions total hash))

abbrev pub NoTombstone : Versions → Type 0
NoTombstone versions =
    (d : Text) (m : FileMetadata) → Map.lookup d versions ≡ some m → m.tombstone ≡ false

-- No version was written after `time`.
abbrev pub NoLater : Versions → ℕ → Type 0
NoLater versions time =
    (d : Text) (m : FileMetadata) → Map.lookup d versions ≡ some m → m.mtime ≤ time

-- What each strategy claims of the drive `w` that it picked.
abbrev pub IsJustified : Versions → ℕ → ResolutionStrategy → Text → Type 0
IsJustified versions total dominant_version w = IsDominant versions w
IsJustified versions total majority_quorum w =
    NoDominant versions
    × (0 < total)
    × ((hash : Text) × IsVoter versions hash w × HasQuorum versions total hash)
IsJustified versions total tombstone_wins w =
    NoDominant versions
    × NoQuorum versions total
    × ((m : FileMetadata) × (Map.lookup w versions ≡ some m) × (m.tombstone ≡ true))
IsJustified versions total last_write_wins w =
    NoDominant versions
    × NoQuorum versions total
    × NoTombstone versions
    × ((m : FileMetadata) × (Map.lookup w versions ≡ some m)
        × (0 < m.mtime)
        × NoLater versions m.mtime)
IsJustified versions total copy_all_versions w =
    (w ≡ [])
    × NoDominant versions
    × NoQuorum versions total
    × NoTombstone versions
    × (NoLater versions 0
        ⊎ ((m : FileMetadata) × (Map.lookup [] versions ≡ some m) × NoLater versions m.mtime))
IsJustified versions total manual_resolution w = ⊥

abbrev Justified : Versions → ℕ → Resolution → Type 0
Justified versions total r = IsJustified versions total r.strategy_used r.winning_drive_id

module _ (conflict : ConflictInfo) (total : ℕ) (s : Sorted.IsSorted conflict.versions) where
  abbrev versions : Versions
  versions = conflict.versions

  abbrev groups : Map Text (List Text)
  groups = group_by_hash [] conflict.versions

  last_write-Justified :
      NoDominant versions
      → NoQuorum versions total
      → NoTombstone versions
      → (r : Text × ℕ) → NoLater versions r.1
      → IsSource versions [] 0 r
      → Justified versions total (last_write conflict r)
  unfolding last_write
  last_write-Justified d q t ([], time) b (inl (e, g)) = (refl, d, q, t, inl (rw (← g) b))
  last_write-Justified d q t ([], time) b (inr (m, e, g, h)) = (refl, d, q, t, inr (m, e, rw g b))
  last_write-Justified d q t (c ∷ w, time) b (inl (e, g)) = cc
  last_write-Justified d q t (c ∷ w, time) b (inr (m, e, g, h)) =
      (d, q, t, (m, e, omega arith, rw g b))

  tombstone-Justified :
      NoDominant versions
      → NoQuorum versions total
      → (o : Option Text) → find_tombstone versions ≡ o
      → Justified versions total (tombstone_or_latest conflict o)
  unfolding tombstone_or_latest
  tombstone-Justified d q (some w) e = (d, q, find_tombstone_sound versions w s e)
  tombstone-Justified d q none e =
      last_write-Justified d q (λ k m f. find_tombstone_complete versions k m e f)
        (latest [] 0 versions) (latest_bound versions [] 0) (latest-IsSource versions [] 0 s)

  quorum-of_found :
      (hash : Text) (drives : List Text)
      → find_quorum total groups ≡ some (hash, drives)
      → (drives ≡ voters hash versions) × (total < length drives * 2)
  unfolding Map.lookup
  quorum-of_found hash drives e =
      let (found, more) =
        find_quorum_sound total groups hash drives (group_by_hash-IsSorted [] versions tt) e in
      (rw found at (lookup-group_by_hash hash [] versions), more)

  quorum-Justified :
      NoDominant versions
      → 0 < total
      → (o : Option (Text × List Text)) → find_quorum total groups ≡ o
      → Justified versions total (quorum_or_later conflict total o)
  unfolding quorum_or_later Map.lookup
  quorum-Justified d h (some (hash, drives)) e =
      let (same, more) = quorum-of_found hash drives e in
      (
        d,
        h,
        (hash, rw same (front-voters hash versions s (few (rw same at more))), rw same at more),
      )
    where
      few : total < length (voters hash versions) * 2 → 0 < length (voters hash versions)
      few b = omega arith
  quorum-Justified d h none e =
      tombstone-Justified d (inr (λ hash q. omega (arith, bound hash))) (find_tombstone versions)
        refl
    where
      bound : (hash : Text) → length (voters hash versions) * 2 ≤ total
      bound hash =
          rw (lookup-group_by_hash hash [] versions) at (find_quorum_complete total groups hash e)

  dominant-Justified :
      (o : Option Text)
      → find_dominant versions versions ≡ o
      → Justified versions total (dominant_or_later conflict total o)
  unfolding dominant_or_later quorum_or_later
  dominant-Justified (some w) e = find_dominant_sound versions versions w s e
  dominant-Justified none e = elim (Bool-cases (ltb 0 total)) [
    | inl t ↦ rw t (quorum-Justified absent (ltb→lt 0 total t) (find_quorum total groups) refl)
    | inr t ↦ rw t (tombstone-Justified absent (inl (ground arith)) (find_tombstone versions) refl)
  ]
    where
      absent : NoDominant versions
      absent w (m, found, c) = find_dominant_complete versions versions w m s e found c

-- Over versions that stand in the order of their drives, the strategy that `resolve` reports is
-- justified and the drive that it picks is one that the strategy means: a version at least as new
-- as all others; else a live version whose hash more than half of the drives hold; else a
-- tombstone; else a version that was written last, at a time above 0; else no drive, when all
-- times are 0 or the empty drive id wrote last. It never asks for a manual resolution.
pub resolve-Justified :
    (conflict : ConflictInfo) (total : ℕ)
    → Sorted.IsSorted conflict.versions
    → IsJustified conflict.versions total
        (resolve conflict total).strategy_used
        (resolve conflict total).winning_drive_id
unfolding resolve
resolve-Justified conflict total s =
    dominant-Justified conflict total s (find_dominant conflict.versions conflict.versions) refl
