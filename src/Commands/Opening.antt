-- ===== src/Commands/Opening.antt =====
-- The manifests that the commands of src/main.cpp open, over databases that can be read.
use caravault.Base.{◌≡◌, refl, Option, none, some, List, [], ◌∷◌, arith, Text, text_ord}
use caravault.Base.Map
use caravault.Base.Map.{Map}
use caravault.Base.Map.Sorted
use caravault.Base.Map.Every.{Every, insert-Every, lookup-Every}
use caravault.Base.Results.{Result, ok}
use caravault.VersionVector.Json.{JsonError}
use caravault.Manifest.{FileMetadata, ManifestStore, get_file}
use caravault.Manifest.Tables.{NoNul}
use caravault.Manifest.Files.{IsSound}
use caravault.Conflict.{Manifests}
use caravault.Conflict.Gathering.{version_at}
use caravault.Executor.{Stores}
use caravault.Commands.{
  Databases, Opened, open_found, open_mounts, open_drive_manifests, drive_id_of, read_manifests,
}
use caravault.Commands.Listing.{get_all_files-get_file}

abbrev pub AllSound : Stores → Type 0
AllSound stores = Every (λ d s. IsSound s) stores

abbrev pub OpensSound : Option ManifestStore → Type 0
OpensSound none = Unit
OpensSound (some s) = IsSound s

-- Of every database that opens.
abbrev pub AreSound : Databases → Type 0
AreSound databases = Every (λ mount db. OpensSound db) databases

abbrev pub IsTidy : Stores → Type 0
IsTidy stores = Sorted.IsSorted stores × AllSound stores

open_mounts-IsTidy :
    (databases : Databases) (mounts : List Text) (o : Opened)
    → AreSound databases
    → IsTidy o.manifests
    → IsTidy (open_mounts databases mounts o).manifests
unfolding open_mounts
open_mounts-IsTidy databases [] o h t = t
open_mounts-IsTidy databases (mount ∷ mounts) o h (sorted, sound) =
    open_mounts-IsTidy databases mounts (open_found mount (Map.lookup mount databases) o) h
      (found (Map.lookup mount databases) refl)
  where
    found :
        (db : Option (Option ManifestStore))
        → Map.lookup mount databases ≡ db
        → IsTidy (open_found mount db o).manifests
    found none e = (sorted, sound)
    found (some none) e = (sorted, sound)
    found (some (some s)) e = (
      Sorted.insert-IsSorted (drive_id_of mount s) s o.manifests sorted,
      insert-Every (λ d s. IsSound s) (drive_id_of mount s) s o.manifests
          (lookup-Every (λ mount db. OpensSound db) mount (some s) databases h e) sound,
    )

-- The opened stores stand in the order of their drives, and each can be read.
pub open_drive_manifests-IsTidy :
    (databases : Databases) (mounts : List Text)
    → AreSound databases
    → IsTidy (open_drive_manifests databases mounts).manifests
open_drive_manifests-IsTidy databases mounts h =
    open_mounts-IsTidy databases mounts (record { manifests = []; drive_roots = [] }) h (tt, tt)

-- What `get_file` finds for a path on a drive.
abbrev pub entry_in : Text → Option ManifestStore → Result JsonError (Option FileMetadata)
entry_in path none = ok none
entry_in path (some s) = get_file path s

abbrev pub entry_at : Text → Text → Stores → Result JsonError (Option FileMetadata)
entry_at path drive_id stores = entry_in path (Map.lookup drive_id stores)

-- The manifests read from sound stores hold for each drive and path what `get_file` finds there.
pub read_manifests-entry_at :
    (stores : Stores)
    → AllSound stores
    → (ms : Manifests) × (read_manifests stores ≡ ok ms)
      × ((q d : Text) → NoNul q → entry_at q d stores ≡ ok (version_at ms q d))
      × ((d : Text) → Sorted.IsAbove d stores → Sorted.IsAbove d ms)
      × (Sorted.IsSorted stores → Sorted.IsSorted ms)
unfolding read_manifests Map.lookup
read_manifests-entry_at [] h = ([], refl, λ q d k. refl, λ d a. tt, λ s. tt)
read_manifests-entry_at ((e, s) ∷ stores) ((readable, unique), h) =
    let (ms, read, agree, above, sorted) = read_manifests-entry_at stores h in
    let (files, listed, found, once) = get_all_files-get_file s readable unique in
    (
      (e, some files) ∷ ms,
      rw (listed, read) refl,
      λ q d k. ground (arith, agree q d k, found q k),
      λ d (p, a). (p, above d a),
      λ (a, t). (above e a, sorted t),
    )
