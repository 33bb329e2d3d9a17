-- ===== src/Examples/Conflicts.antt =====
-- Conflicts of src/conflict_resolver.cpp between concrete versions.
use caravault.Base.{◌≡◌, ◌↔◌, refl, ◌∷◌, [], text, Text, text_ord, cmp_text, ◌=?◌, true, some, any}
use caravault.Base.Map.Sorted
use caravault.Manifest.{FileMetadata}
use caravault.Conflict.{Manifests, ConflictInfo, manual_resolution, detect_conflicts, resolve}
use caravault.Conflict.Detection.{Disagree, detect_conflicts_iff}
use caravault.Conflict.Gathering.{version_at}
use caravault.Conflict.Resolve.{IsJustified, resolve-Justified}
use caravault.Examples.Vectors.{ann, bob, by_ann, by_bob}
use caravault.Examples.Stores.{note, note_path}

abbrev pub cid : Text
cid = text "cid"

abbrev other_note : FileMetadata
other_note = record note { hash = text "h2"; version_vector = by_bob }

abbrev both : Manifests
both = (ann, some (note ∷ [])) ∷ (bob, some (other_note ∷ [])) ∷ []

both-IsSorted : Sorted.IsSorted both
unfolding cmp_text
both-IsSorted = ((refl, tt), (tt, tt))

detect_conflicts_iff_example :
    (any (λ (c : ConflictInfo). c.path =? note_path) (detect_conflicts both) ≡ true)
    ↔ Disagree (version_at both note_path)
detect_conflicts_iff_example = detect_conflicts_iff both note_path both-IsSorted

-- Two of three drives hold one hash, under concurrent vectors.
abbrev vote : ConflictInfo
vote = record {
  path = note_path;
  versions =
      (ann, note) ∷ (bob, other_note) ∷ (cid, record other_note { version_vector = by_ann }) ∷ [];
  recommended_strategy = manual_resolution;
}

vote-IsSorted : Sorted.IsSorted vote.versions
unfolding cmp_text
vote-IsSorted = ((refl, (refl, tt)), ((refl, tt), (tt, tt)))

resolve-Justified_example :
    IsJustified vote.versions 3 (resolve vote 3).strategy_used (resolve vote 3).winning_drive_id
resolve-Justified_example = resolve-Justified vote 3 vote-IsSorted
