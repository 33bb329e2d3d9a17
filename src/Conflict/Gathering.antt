-- ===== src/Conflict/Gathering.antt =====
-- The first half of `detect_conflicts` in src/conflict_resolver.cpp: the versions that it gathers.
use caravault.Base.{
  ◌≡◌, refl, ◌∙◌, Option, none, some, List, [], ◌∷◌, arith, ◌=?◌, =?_iff, if◌then◌else◌, Text,
  text_ord, cmp_text_iff, Bool-cases, inl, inr,
}
use caravault.Base.Map
use caravault.Base.Map.{Map}
use caravault.Base.Map.Sorted
use caravault.Base.Map.Sorted.{or_else}
use caravault.Manifest.{FileMetadata, value_or}
use caravault.Conflict.{Versions, Manifests, add_version, add_files, add_manifests}

-- The last entry of the list for the path.
unfoldable pub last_file : Text → List FileMetadata → Option FileMetadata
last_file path [] = none
last_file path (meta ∷ files) =
    or_else (last_file path files) (if path =? meta.path then some meta else none)

abbrev pub files_version : Text → Option (Option (List FileMetadata)) → Option FileMetadata
files_version path none = none
files_version path (some none) = none
files_version path (some (some files)) = last_file path files

-- The version of a path in the manifest of a drive.
abbrev pub version_at : Manifests → Text → Text → Option FileMetadata
version_at manifests path drive_id = files_version path (Map.lookup drive_id manifests)

abbrev pub gathered : Map Text Versions → Text → Text → Option FileMetadata
gathered all path drive_id = Map.lookup drive_id (value_or [] (Map.lookup path all))

gathered-add_version :
    (d e path : Text) (m : FileMetadata) (all : Map Text Versions)
    → gathered (add_version d m all) path e ≡ (
        if e =? d
        then or_else (if path =? m.path then some m else none) (gathered all path e)
        else gathered all path e)
unfolding add_version
gathered-add_version d e path m all = rw (Map.lookup-insert) (elim (Bool-cases (path =? m.path)) [
  | inl t ↦
      let same = (=?_iff path m.path).0 t in simp (t, Map.lookup-insert) (rw same (ground arith))
  | inr t ↦ simp t (ground arith)
])

gathered-add_files :
    (d e path : Text) (files : List FileMetadata) (all : Map Text Versions)
    → gathered (add_files d files all) path e ≡ (
        if e =? d
        then or_else (last_file path files) (gathered all path e)
        else gathered all path e)
unfolding add_files last_file
gathered-add_files d e path [] all = ground arith
gathered-add_files d e path (m ∷ files) all =
    gathered-add_files d e path files (add_version d m all)
    ∙ rw (gathered-add_version d e path m all) (ground arith)

version_at-cons :
    (e path d : Text) (x : Option (List FileMetadata)) (manifests : Manifests)
    → Sorted.IsAbove d manifests
    → (version_at ((d, x) ∷ manifests) path e
        ≡ (if e =? d then files_version path (some x) else version_at manifests path e))
      × (e ≡ d → version_at manifests path e ≡ none)
unfolding Map.lookup
version_at-cons e path d x manifests a =
    (ground arith, λ same. rw (same, Sorted.lookup-of_IsAbove d manifests a))

-- Every version that is gathered is that of its drive.
pub gathered-add_manifests :
    (e path : Text) (manifests : Manifests) (all : Map Text Versions)
    → Sorted.IsSorted manifests
    → gathered (add_manifests manifests all) path e
      ≡ or_else (version_at manifests path e) (gathered all path e)
unfolding add_manifests
gathered-add_manifests e path [] all s = unfold Map.lookup in refl
gathered-add_manifests e path ((d, none) ∷ manifests) all (a, s) =
    let (at, alone) = version_at-cons e path d none manifests a in
    gathered-add_manifests e path manifests all s ∙ rw at (ground (arith, alone, cmp_text_iff e d))
gathered-add_manifests e path ((d, some files) ∷ manifests) all (a, s) =
    let (at, alone) = version_at-cons e path d (some files) manifests a in
    gathered-add_manifests e path manifests (add_files d files all) s
    ∙ rw (at, gathered-add_files d e path files all) (ground (arith, alone, cmp_text_iff e d))

-- The maps stand in order, the outer one by path and the inner ones by drive.
abbrev pub AllSorted : Map Text Versions → Type 0
AllSorted [] = Unit
AllSorted ((_, versions) ∷ all) = Sorted.IsSorted versions × AllSorted all

insert-AllSorted :
    (path : Text) (versions : Versions) (all : Map Text Versions)
    → Sorted.IsSorted versions
    → AllSorted all
    → AllSorted (Map.insert path versions all)
unfolding Map.insert
insert-AllSorted path versions [] s h = (s, tt)
insert-AllSorted path versions ((k, v) ∷ all) s (t, h) =
    ground (arith, insert-AllSorted path versions all s h)

pub lookup-AllSorted :
    (path : Text) (all : Map Text Versions)
    → AllSorted all
    → Sorted.IsSorted (value_or [] (Map.lookup path all))
unfolding Map.lookup
lookup-AllSorted path [] h = tt
lookup-AllSorted path ((k, v) ∷ all) (t, h) = ground (arith, lookup-AllSorted path all h)

abbrev pub IsTidy : Map Text Versions → Type 0
IsTidy all = Sorted.IsSorted all × AllSorted all

add_version-IsTidy :
    (d : Text) (m : FileMetadata) (all : Map Text Versions)
    → IsTidy all
    → IsTidy (add_version d m all)
unfolding add_version
add_version-IsTidy d m all (s, h) = (
  Sorted.insert-IsSorted m.path _ all s,
  insert-AllSorted m.path _ all (Sorted.insert-IsSorted d m _ (lookup-AllSorted m.path all h)) h,
)

add_files-IsTidy :
    (d : Text) (files : List FileMetadata) (all : Map Text Versions)
    → IsTidy all
    → IsTidy (add_files d files all)
unfolding add_files
add_files-IsTidy d [] all t = t
add_files-IsTidy d (m ∷ files) all t =
    add_files-IsTidy d files (add_version d m all) (add_version-IsTidy d m all t)

pub add_manifests-IsTidy :
    (manifests : Manifests) (all : Map Text Versions)
    → IsTidy all
    → IsTidy (add_manifests manifests all)
unfolding add_manifests
add_manifests-IsTidy [] all t = t
add_manifests-IsTidy ((d, none) ∷ manifests) all t = add_manifests-IsTidy manifests all t
add_manifests-IsTidy ((d, some files) ∷ manifests) all t =
    add_manifests-IsTidy manifests (add_files d files all) (add_files-IsTidy d files all t)
