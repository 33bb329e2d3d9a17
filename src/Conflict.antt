-- ===== src/Conflict.antt =====
-- `ConflictResolver` of src/conflict_resolver.cpp and include/conflict_resolver.hpp. A manifest comes as
-- what `get_all_files` returns, and `none` is a null pointer to a store.
pub mod Gathering
pub mod Detection
pub mod Strategies
pub mod Votes
pub mod Resolve
use caravault.Base.{
  ℕ, zero, ◌+◌, ◌*◌, Bool, true, false, Option, none, some, List, [], ◌∷◌, ◌++◌, ◌==◌, ◌=?◌,
  if◌then◌else◌, Text, text_ord, text, not, any, ltb, length, is_empty, ◌&&◌, ◌||◌,
}
use caravault.Base.Map
use caravault.Base.Map.{Map}
use caravault.VersionVector.{
  VersionVector, Ordering, dominates, dominated_by, concurrent, equal, compare,
}
use caravault.VersionVector.Json.{decimal, max_digits}
use caravault.Manifest.{FileMetadata, value_or}

pub data ResolutionStrategy : Type 0 where
  dominant_version majority_quorum tombstone_wins : ResolutionStrategy
  last_write_wins copy_all_versions manual_resolution : ResolutionStrategy

-- The versions of one path by drive.
abbrev pub Versions : Type 0
Versions = Map Text FileMetadata

pub record ConflictInfo : Type 0 where
  pub path : Text
  pub versions : Versions
  pub recommended_strategy : ResolutionStrategy

pub record Resolution : Type 0 where
  pub winning_drive_id : Text
  pub strategy_used : ResolutionStrategy
  pub actions : List Text

abbrev pub Manifests : Type 0
Manifests = Map Text (Option (List FileMetadata))

-- `all_versions[meta.path][drive_id] = meta`
unfoldable pub add_version : Text → FileMetadata → Map Text Versions → Map Text Versions
add_version drive_id meta all =
    Map.insert meta.path (Map.insert drive_id meta (value_or [] (Map.lookup meta.path all))) all

unfoldable pub add_files : Text → List FileMetadata → Map Text Versions → Map Text Versions
add_files drive_id [] all = all
add_files drive_id (meta ∷ files) all = add_files drive_id files (add_version drive_id meta all)

unfoldable pub add_manifests : Manifests → Map Text Versions → Map Text Versions
add_manifests [] all = all
add_manifests ((drive_id, none) ∷ manifests) all = add_manifests manifests all
add_manifests ((drive_id, some files) ∷ manifests) all =
    add_manifests manifests (add_files drive_id files all)

-- The test on a pair of versions: concurrent, or a live one over an older tombstone.
unfoldable pub is_conflict : FileMetadata → FileMetadata → Bool
is_conflict a b = elim (compare a.version_vector b.version_vector) [
  | concurrent ↦ true
  | dominates ↦ not a.tombstone && b.tombstone
  | dominated_by ↦ not b.tombstone && a.tombstone
  | equal ↦ false
]

unfoldable pub conflicts_with : FileMetadata → Versions → Bool
conflicts_with a [] = false
conflicts_with a ((_, b) ∷ versions) = is_conflict a b || conflicts_with a versions

-- The two loops over pairs, up to the first conflict.
unfoldable pub has_concurrent : Versions → Bool
has_concurrent [] = false
has_concurrent ((_, a) ∷ versions) = conflicts_with a versions || has_concurrent versions

unfoldable pub collect_conflicts : Map Text Versions → List ConflictInfo
collect_conflicts [] = []
collect_conflicts ((path, versions) ∷ all) =
    let rest = collect_conflicts all in
    if ltb (length versions) 2
    then rest
    else if not (has_concurrent versions)
    then rest
    else record { path = path; versions = versions; recommended_strategy = manual_resolution }
      ∷ rest

unfoldable pub detect_conflicts : Manifests → List ConflictInfo
detect_conflicts manifests = collect_conflicts (add_manifests manifests [])

-- The inner loop of `resolve`: is the candidate at least as new as every other version?
unfoldable pub dominates_all : Text → FileMetadata → Versions → Bool
dominates_all candidate_id candidate [] = true
dominates_all candidate_id candidate ((other_id, other) ∷ versions) =
    let rest = dominates_all candidate_id candidate versions in
    if other_id =? candidate_id
    then rest
    else elim (compare candidate.version_vector other.version_vector) [
      | dominates ↦ rest
      | equal ↦ rest
      | _ ↦ false
    ]

unfoldable pub find_dominant : Versions → Versions → Option Text
find_dominant versions [] = none
find_dominant versions ((candidate_id, candidate) ∷ candidates) =
    let rest = find_dominant versions candidates in
    if dominates_all candidate_id candidate versions then some candidate_id else rest

-- `hash_to_drives[meta.hash].push_back(drive_id)` for a live version.
unfoldable pub vote : Text → FileMetadata → Map Text (List Text) → Map Text (List Text)
vote drive_id meta groups =
    if not meta.tombstone
    then Map.insert meta.hash (value_or [] (Map.lookup meta.hash groups) ++ drive_id ∷ []) groups
    else groups

unfoldable pub group_by_hash : Map Text (List Text) → Versions → Map Text (List Text)
group_by_hash groups [] = groups
group_by_hash groups ((drive_id, meta) ∷ versions) =
    group_by_hash (vote drive_id meta groups) versions

unfoldable pub find_quorum : ℕ → Map Text (List Text) → Option (Text × List Text)
find_quorum total_drives [] = none
find_quorum total_drives ((hash, drives) ∷ groups) =
    let rest = find_quorum total_drives groups in
    if ltb total_drives (length drives * 2) then some (hash, drives) else rest

unfoldable pub find_tombstone : Versions → Option Text
find_tombstone [] = none
find_tombstone ((drive_id, meta) ∷ versions) =
    let rest = find_tombstone versions in if meta.tombstone then some drive_id else rest

-- The loop for the latest `mtime`, over `best_drive` and `best_mtime`.
unfoldable pub latest : Text → ℕ → Versions → Text × ℕ
latest best_drive best_mtime [] = (best_drive, best_mtime)
latest best_drive best_mtime ((drive_id, meta) ∷ versions) =
    latest (if ltb best_mtime meta.mtime then drive_id else best_drive)
      (if ltb best_mtime meta.mtime then meta.mtime else best_mtime) versions

abbrev pub to_string : ℕ → Text
to_string n = decimal max_digits n

-- `drives.front()`, of a list that is never empty.
abbrev pub front : List Text → Text
front [] = []
front (d ∷ ds) = d

unfoldable pub last_write : ConflictInfo → Text × ℕ → Resolution
last_write conflict (best_drive, best_mtime) =
    if not (is_empty best_drive)
    then record {
      winning_drive_id = best_drive;
      strategy_used = last_write_wins;
      actions =
          (text "Last-write-wins: drive "
            ++ (best_drive ++ (text " mtime=" ++ to_string best_mtime)))
          ∷ [];
    }
    else record {
      winning_drive_id = [];
      strategy_used = copy_all_versions;
      actions = (text "Preserving all versions of " ++ conflict.path) ∷ [];
    }

unfoldable pub tombstone_or_latest : ConflictInfo → Option Text → Resolution
tombstone_or_latest conflict (some drive_id) = record {
  winning_drive_id = drive_id;
  strategy_used = tombstone_wins;
  actions =
      (text "Tombstone from drive " ++ (drive_id ++ (text " wins for " ++ conflict.path))) ∷ [];
}
tombstone_or_latest conflict none = last_write conflict (latest [] 0 conflict.versions)

unfoldable pub quorum_or_later : ConflictInfo → ℕ → Option (Text × List Text) → Resolution
quorum_or_later conflict total_drives (some (hash, drives)) = record {
  winning_drive_id = front drives;
  strategy_used = majority_quorum;
  actions =
      (text "Quorum: "
        ++ (to_string (length drives)
            ++ (text "/" ++ (to_string total_drives ++ (text " drives agree on " ++ hash)))))
      ∷ text "Version vectors merged to reflect resolution"
      ∷ [];
}
quorum_or_later conflict total_drives none =
    tombstone_or_latest conflict (find_tombstone conflict.versions)

unfoldable pub dominant_or_later : ConflictInfo → ℕ → Option Text → Resolution
dominant_or_later conflict total_drives (some candidate_id) = record {
  winning_drive_id = candidate_id;
  strategy_used = dominant_version;
  actions = (text "Selected dominant version from drive " ++ candidate_id) ∷ [];
}
dominant_or_later conflict total_drives none = quorum_or_later conflict total_drives (
    if ltb 0 total_drives
    then find_quorum total_drives (group_by_hash [] conflict.versions)
    else none)

unfoldable pub resolve : ConflictInfo → ℕ → Resolution
resolve conflict total_drives =
    dominant_or_later conflict total_drives (find_dominant conflict.versions conflict.versions)
