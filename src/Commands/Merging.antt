-- ===== src/Commands/Merging.antt =====
-- The vectors that `do_resolve` of src/main.cpp merges over manifests that can be read.
use caravault.Base.{
  ℕ, ◌+◌, ◌<◌, ◌≤◌, cmp_text_iff, ◌≡◌, refl, Option, none, some, [], ◌∷◌, arith, Text, text_ord,
  inl, inr, max,
}
use caravault.Base.Map
use caravault.Base.Map.{Map}
use caravault.Base.Map.Every.{Every}
use caravault.Base.Results.{Result, ok, err}
use caravault.VersionVector.{
  VersionVector, merge, merge_clock, merge_clocks, increment, get_clock, u64_mod, compare,
  dominates,
}
use caravault.VersionVector.Clocks.{
  IsValid, merge-IsValid, increment-IsValid, get_clock-merge, get_clock-increment,
}
use caravault.VersionVector.Causality.{IsBelow, compare_iff}
use caravault.VersionVector.Json.{JsonError}
use caravault.Manifest.{FileMetadata, get_file}
use caravault.Manifest.Tables.{NoNul, CleanIds}
use caravault.Manifest.Deletion.{insert-CleanIds}
use caravault.Manifest.Files.{IsStorable, get_file_total}
use caravault.Executor.{Stores}
use caravault.Commands.{}
use caravault.Commands.Opening.{AllSound}
use caravault.Commands.Resolving.{merge_known, resolved_entry}

-- A vector that a row can hold.
abbrev pub IsClean : VersionVector → Type 0
IsClean v = IsValid v × CleanIds v.clocks

merge_clocks-CleanIds :
    (m other : Map Text ℕ) → CleanIds m → CleanIds other → CleanIds (merge_clocks m other)
unfolding merge_clocks merge_clock
merge_clocks-CleanIds m [] c h = c
merge_clocks-CleanIds m ((d, n) ∷ other) c (p, h) =
    merge_clocks-CleanIds (merge_clock d n m) other (one (Map.lookup d m)) h
  where
    one :
        (o : Option ℕ)
        → CleanIds (elim o [ none ↦ Map.insert d n m | some mine ↦ Map.insert d (max mine n) m ])
    one none = insert-CleanIds d n m p c
    one (some mine) = insert-CleanIds d (max mine n) m p c

merge-IsClean : (v w : VersionVector) → IsClean v → IsClean w → IsClean (merge v w)
merge-IsClean v w (p, c) (q, e) =
    (merge-IsValid v w p q, unfold merge in merge_clocks-CleanIds v.clocks w.clocks c e)

-- The entry that is found is no newer than the vector.
abbrev pub IsKnown : Result JsonError (Option FileMetadata) → VersionVector → Type 0
IsKnown (ok (some m)) v = IsBelow m.version_vector v
IsKnown _ v = Unit

abbrev pub AllKnown : Text → Stores → VersionVector → Type 0
AllKnown path stores v = Every (λ d s. IsKnown (get_file path s) v) stores

-- The entry that is found has at most this clock for the drive.
abbrev pub IsAtMost : Result JsonError (Option FileMetadata) → Text → ℕ → Type 0
IsAtMost (ok (some m)) d b = get_clock m.version_vector d ≤ b
IsAtMost _ d b = Unit

abbrev pub AllAtMost : Text → Text → ℕ → Stores → Type 0
AllAtMost path d b stores = Every (λ e s. IsAtMost (get_file path s) d b) stores

-- The vector dominates that of the entry that is found.
abbrev pub IsDominated : Result JsonError (Option FileMetadata) → VersionVector → Type 0
IsDominated (ok (some m)) v = compare v m.version_vector ≡ dominates
IsDominated _ v = Unit

abbrev pub AllDominated : Text → Stores → VersionVector → Type 0
AllDominated path stores v = Every (λ d s. IsDominated (get_file path s) v) stores

-- What no entry exceeds is dominated by it with a clock advanced that does not wrap.
pub AllDominated-increment :
    (path use_drive_id : Text) (v : VersionVector) (stores : Stores)
    → IsValid v
    → get_clock v use_drive_id + 1 < u64_mod
    → AllKnown path stores v
    → AllDominated path stores (increment use_drive_id v)
AllDominated-increment path use_drive_id v [] p h k = tt
AllDominated-increment path use_drive_id v ((d, s) ∷ stores) p h (known, k) =
    (one (get_file path s) known, AllDominated-increment path use_drive_id v stores p h k)
  where
    one :
        (r : Result JsonError (Option FileMetadata))
        → IsKnown r v
        → IsDominated r (increment use_drive_id v)
    one (err e) c = tt
    one (ok none) c = tt
    one (ok (some m)) c = (compare_iff (increment use_drive_id v) m.version_vector dominates).1 (
      (λ e.
          ground
            (arith, get_clock-increment v use_drive_id e, c e, h, cmp_text_iff e use_drive_id)),
      (
        use_drive_id,
        ground (
          arith,
          get_clock-increment v use_drive_id use_drive_id,
          c use_drive_id,
          h,
          cmp_text_iff use_drive_id use_drive_id,
        ),
      ),
    )

pub merge_known-IsClean :
    (path : Text) (stores : Stores) (merged : VersionVector)
    → NoNul path
    → AllSound stores
    → IsClean merged
    → (v : VersionVector) × (merge_known path stores merged ≡ ok v)
      × IsClean v
      × IsBelow merged v
      × AllKnown path stores v
      × ((d : Text) (b : ℕ)
          → get_clock merged d ≤ b
          → AllAtMost path d b stores
          → get_clock v d ≤ b)
unfolding merge_known
merge_known-IsClean path [] merged k h c = (merged, refl, c, (λ d. omega arith), tt, (λ d b l a. l))
merge_known-IsClean path ((e, s) ∷ stores) merged k ((readable, unique), h) c =
    elim (get_file_total path s k readable) [
      | inl f ↦
          let (v, eq, clean, below, known, bounded) =
            merge_known-IsClean path stores merged k h c in
          rw f (v, eq, clean, below, (tt, known), (λ d b l a. bounded d b l a.1))
      | inr (m, f, storable, own) ↦
          let both = merge merged m.version_vector in
          let (v, eq, clean, below, known, bounded) =
            merge_known-IsClean path stores both k h
              (merge-IsClean merged m.version_vector c (storable.vector, storable.drive_ids)) in
          rw f (
            v,
            eq,
            clean,
            (λ d.
                omega (arith, below d, get_clock-merge merged m.version_vector d storable.vector)),
            (
              (λ d.
                  omega
                    (arith, below d, get_clock-merge merged m.version_vector d storable.vector)),
              known,
            ),
            (λ d b l a.
                bounded d b
                  (omega (arith, l, a.0, get_clock-merge merged m.version_vector d storable.vector))
                  a.1),
          )
    ]

pub resolved-IsStorable :
    (use_drive_id : Text) (winner : FileMetadata) (merged : VersionVector)
    → NoNul use_drive_id
    → IsStorable winner
    → IsClean merged
    → IsStorable (resolved_entry use_drive_id winner merged)
resolved-IsStorable use_drive_id winner merged k storable (valid, clean) = record {
  path = storable.path;
  hash = storable.hash;
  drive_ids = unfold increment in insert-CleanIds use_drive_id _ merged.clocks k clean;
  vector = increment-IsValid use_drive_id merged valid;
}
