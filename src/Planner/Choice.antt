-- ===== src/Planner/Choice.antt =====
-- How `plan_sync` of src/sync_planner.cpp chooses the version of a path: the quorum of tombstones, the
-- winner of a resolution, the version that dominates.
use caravault.Base.{
  ℕ, ◌+◌, Bool, true, false, Option, none, some, List, [], ◌∷◌, ◌=?◌, is_empty, if◌then◌else◌, Text,
  text_ord,
}
use caravault.Base.Map
use caravault.Base.Map.Sorted.{or_else}
use caravault.VersionVector
use caravault.VersionVector.{VersionVector, merge, compare, dominates, concurrent}
use caravault.Manifest.{FileMetadata}
use caravault.Conflict.{Resolution}
use caravault.Planner.Operations.{FileIndex, file_at}

pub record Tally : Type 0 where
  pub tombstone_count : ℕ
  pub tombstone_src : Text
  pub tombstone_vv : VersionVector

abbrev pub no_tombstones : Tally
no_tombstones = record {
  tombstone_count = 0;
  tombstone_src = [];
  tombstone_vv = VersionVector.empty;
}

unfoldable pub count_tombstone : Text → FileMetadata → Tally → Tally
count_tombstone drive_id f t =
    if is_empty t.tombstone_src
    then record {
      tombstone_count = t.tombstone_count + 1;
      tombstone_src = drive_id;
      tombstone_vv = f.version_vector;
    }
    else record {
      tombstone_count = t.tombstone_count + 1;
      tombstone_src = t.tombstone_src;
      tombstone_vv = merge t.tombstone_vv f.version_vector;
    }

-- The loop over the drives that counts the tombstones at a path.
unfoldable pub count_tombstones : Text → FileIndex → Tally → Tally
count_tombstones path [] t = t
count_tombstones path ((drive_id, fidx) ∷ idx) t =
    count_tombstones path idx (elim (Map.lookup path fidx) [
      | none ↦ t
      | some f ↦ if f.tombstone then count_tombstone drive_id f t else t
    ])

-- Does a drive other than the winner hold a concurrent version?
unfoldable pub is_contested : Text → Text → FileMetadata → FileIndex → Bool
is_contested path winner f [] = false
is_contested path winner f ((did, fidx) ∷ idx) =
    let rest = is_contested path winner f idx in
    if did =? winner then rest else elim (Map.lookup path fidx) [
      | none ↦ rest
      | some other ↦ elim (compare f.version_vector other.version_vector) [
        | concurrent ↦ true
        | _ ↦ rest
      ]
    ]

-- The loop over the resolutions.
unfoldable pub find_winner : Text → FileIndex → List Resolution → Option (Text × FileMetadata)
find_winner path idx [] = none
find_winner path idx (res ∷ resolutions) =
    let rest = find_winner path idx resolutions in
    if is_empty res.winning_drive_id then rest else elim (file_at idx res.winning_drive_id path) [
      | none ↦ rest
      | some f ↦
          if is_contested path res.winning_drive_id f idx
          then some (res.winning_drive_id, f)
          else rest
    ]

-- One round of the loop for the dominant version.
unfoldable pub better :
    Text → FileMetadata → Option (Text × FileMetadata) → Option (Text × FileMetadata)
better drive_id f none = some (drive_id, f)
better drive_id f (some (src, meta)) = elim (compare f.version_vector meta.version_vector) [
  | dominates ↦ some (drive_id, f)
  | _ ↦ some (src, meta)
]

unfoldable pub find_best :
    Text → FileIndex → Option (Text × FileMetadata) → Option (Text × FileMetadata)
find_best path [] best = best
find_best path ((drive_id, fidx) ∷ idx) best =
    find_best path idx
      (elim (Map.lookup path fidx) [ none ↦ best | some f ↦ better drive_id f best ])

unfoldable pub choose : Text → FileIndex → List Resolution → Option (Text × FileMetadata)
choose path idx resolutions = or_else (find_winner path idx resolutions) (find_best path idx none)
