-- ===== src/Conflict/Detection.antt =====
-- `detect_conflicts` of src/conflict_resolver.cpp, against the versions of each drive.
use caravault.Base.{
  ◌≡◌, ◌≢◌, ◌↔◌, ◌⊎◌, not, ◌&&◌, inl, inr, refl, sym, ◌∙◌, Bool, true, false, Option, none, some,
  List, [], ◌∷◌, arith, ◌=?◌, =?_refl, Text, text_ord, cmp_text_iff, Bool-cases, any, length, ltb,
  subst, fun_ext,
}
use caravault.Base.Map
use caravault.Base.Map.{Map}
use caravault.Base.Map.Sorted
use caravault.Base.Map.Sorted.{or_else}
use caravault.VersionVector.{Ordering, dominates, dominated_by, concurrent, equal, compare}
use caravault.VersionVector.Causality.{
  compare-flip, compare_iff, compare-Causal, Causal, IsBelow, Exceeds,
}
use caravault.Manifest.{FileMetadata, value_or}
use caravault.Conflict.{
  Versions, Manifests, ConflictInfo, is_conflict, conflicts_with, has_concurrent, add_manifests,
  collect_conflicts, detect_conflicts,
}
use caravault.Conflict.Gathering.{
  version_at, gathered-add_manifests, lookup-AllSorted, add_manifests-IsTidy,
}

-- Two versions are in conflict whichever comes first.
pub is_conflict_comm : (a b : FileMetadata) → is_conflict a b ≡ is_conflict b a
unfolding is_conflict
is_conflict_comm a b = ground (arith, compare-flip a.version_vector b.version_vector)

-- A live version that is newer than a tombstone.
abbrev pub IsRevived : FileMetadata → FileMetadata → Type 0
IsRevived a b =
    IsBelow b.version_vector a.version_vector
    × Exceeds a.version_vector b.version_vector
    × (a.tombstone ≡ false)
    × (b.tombstone ≡ true)

-- Versions that are concurrent, or of which the newer is live and the older is a tombstone.
abbrev pub Clash : FileMetadata → FileMetadata → Type 0
Clash a b =
    (Exceeds a.version_vector b.version_vector × Exceeds b.version_vector a.version_vector)
    ⊎ (IsRevived a b ⊎ IsRevived b a)

and_parts : (p q : Bool) → (not p && q) ≡ true → (p ≡ false) × (q ≡ true)
and_parts p q h = ground arith

Clash-of_is_conflict : (a b : FileMetadata) → is_conflict a b ≡ true → Clash a b
unfolding is_conflict
Clash-of_is_conflict a b h =
    go (compare a.version_vector b.version_vector) refl
      (compare-Causal a.version_vector b.version_vector)
  where
    go :
        (o : Ordering)
        → compare a.version_vector b.version_vector ≡ o
        → Causal a.version_vector b.version_vector o
        → Clash a b
    go concurrent e c = inl c
    go dominates e (below, over) =
        let (live, dead) = and_parts a.tombstone b.tombstone (rw (e, is_conflict) at h) in
        inr (inl (below, over, live, dead))
    go dominated_by e (below, over) =
        let (live, dead) = and_parts b.tombstone a.tombstone (rw (e, is_conflict) at h) in
        inr (inr (below, over, live, dead))
    go equal e c = absurd (cc (rw (e, is_conflict) at h))

is_conflict-of_Clash : (a b : FileMetadata) → Clash a b → is_conflict a b ≡ true
unfolding is_conflict
is_conflict-of_Clash a b (inl c) =
    simp (is_conflict, (compare_iff a.version_vector b.version_vector concurrent).1 c) refl
is_conflict-of_Clash a b (inr (inl (below, over, live, dead))) =
    simp
      (
        is_conflict,
        (compare_iff a.version_vector b.version_vector dominates).1 (below, over),
        live,
        dead,
      )
      refl
is_conflict-of_Clash a b (inr (inr (below, over, live, dead))) =
    simp
      (
        is_conflict,
        (compare_iff a.version_vector b.version_vector dominated_by).1 (below, over),
        live,
        dead,
      )
      refl

-- Two drives have versions of which this is true.
abbrev pub HavePair : (FileMetadata → FileMetadata → Type 0) → (Text → Option FileMetadata) → Type 0
HavePair p version =
    (d e : Text) × (a b : FileMetadata) × (d ≢ e)
    × (version d ≡ some a)
    × (version e ≡ some b)
    × p a b

abbrev IsConflict : FileMetadata → FileMetadata → Type 0
IsConflict a b = is_conflict a b ≡ true

-- Two drives have versions in conflict.
abbrev pub Disagree : (Text → Option FileMetadata) → Type 0
Disagree = HavePair Clash

conflicts_with_sound :
    (a : FileMetadata) (versions : Versions)
    → Sorted.IsSorted versions
    → conflicts_with a versions ≡ true
    → (e : Text) × (b : FileMetadata) × (Map.lookup e versions ≡ some b) × (is_conflict a b ≡ true)
unfolding conflicts_with
conflicts_with_sound a [] s h = cc
conflicts_with_sound a ((k, b) ∷ versions) (above, s) h = elim (Bool-cases (is_conflict a b)) [
  | inl t ↦ (k, b, unfold Map.lookup in ground (arith, =?_refl k), t)
  | inr t ↦
      let (e, c, found, clash) = conflicts_with_sound a versions s (ground arith) in
      (e, c, Sorted.lookup-cons e k c b versions above found, clash)
]

conflicts_with_complete :
    (a b : FileMetadata) (e : Text) (versions : Versions)
    → Map.lookup e versions ≡ some b
    → is_conflict a b ≡ true
    → conflicts_with a versions ≡ true
unfolding conflicts_with Map.lookup
conflicts_with_complete a b e [] f h = cc
conflicts_with_complete a b e ((k, c) ∷ versions) f h =
    ground (arith, conflicts_with_complete a b e versions)

ne_of_found :
    (k e : Text) (b : FileMetadata) (versions : Versions)
    → Sorted.IsAbove k versions
    → Map.lookup e versions ≡ some b
    → k ≢ e
ne_of_found k e b versions above f same =
    cc (
      subst (λ x. Map.lookup x versions ≡ none) same (Sorted.lookup-of_IsAbove k versions above),
      f,
    )

has_concurrent_sound :
    (versions : Versions)
    → Sorted.IsSorted versions
    → has_concurrent versions ≡ true
    → HavePair IsConflict (λ d. Map.lookup d versions)
unfolding has_concurrent
has_concurrent_sound [] s h = cc
has_concurrent_sound ((k, a) ∷ versions) (above, s) h =
    elim (Bool-cases (conflicts_with a versions)) [
      | inl t ↦
          let (e, b, found, clash) = conflicts_with_sound a versions s t in
          (
            k,
            e,
            a,
            b,
            ne_of_found k e b versions above found,
            unfold Map.lookup in ground (arith, =?_refl k),
            Sorted.lookup-cons e k b a versions above found,
            clash,
          )
      | inr t ↦
          let (d, e, b, c, apart, at_d, at_e, clash) =
            has_concurrent_sound versions s (ground arith) in
          (
            d,
            e,
            b,
            c,
            apart,
            Sorted.lookup-cons d k b a versions above at_d,
            Sorted.lookup-cons e k c a versions above at_e,
            clash,
          )
    ]

has_concurrent_complete :
    (d e : Text) (a b : FileMetadata) (versions : Versions)
    → d ≢ e
    → Map.lookup d versions ≡ some a
    → Map.lookup e versions ≡ some b
    → is_conflict a b ≡ true
    → has_concurrent versions ≡ true
unfolding has_concurrent Map.lookup
has_concurrent_complete d e a b [] apart f g h = cc
has_concurrent_complete d e a b ((k, c) ∷ versions) apart f g h = ground (
  arith,
  has_concurrent_complete d e a b versions apart,
  conflicts_with_complete a b e versions,
  conflicts_with_complete b a d versions,
  is_conflict_comm a b,
  cmp_text_iff d k,
  cmp_text_iff e k,
)

abbrev reported : Text → List ConflictInfo → Bool
reported path = any (λ (c : ConflictInfo). c.path =? path)

too_few : (versions : Versions) → ltb (length versions) 2 ≡ true → has_concurrent versions ≡ false
unfolding has_concurrent conflicts_with
too_few [] h = refl
too_few ((d, a) ∷ []) h = refl
too_few ((d, a) ∷ (e, b) ∷ versions) h = ground arith

-- A path is reported once its versions hold a conflict; a conflict takes two versions.
reported-collect_conflicts :
    (path : Text) (all : Map Text Versions)
    → Sorted.IsSorted all
    → reported path (collect_conflicts all) ≡ has_concurrent (value_or [] (Map.lookup path all))
unfolding collect_conflicts Map.lookup
reported-collect_conflicts path [] s = sym (too_few [] refl)
reported-collect_conflicts path ((k, versions) ∷ all) (above, s) = ground (
  arith,
  reported-collect_conflicts path all s,
  too_few versions,
  too_few [] refl,
  cmp_text_iff path k,
  cmp_text_iff k path,
  Sorted.lookup-of_IsAbove k all above,
)

-- Over manifests in the order of their drives, a path is reported exactly when the manifests of
-- two drives hold versions of it that are concurrent, or of which the newer is live and the older
-- is a tombstone.
pub detect_conflicts_iff :
    (manifests : Manifests) (path : Text)
    → Sorted.IsSorted manifests
    → (any (λ (c : ConflictInfo). c.path =? path) (detect_conflicts manifests) ≡ true)
      ↔ Disagree (version_at manifests path)
unfolding detect_conflicts
detect_conflicts_iff manifests path s = (
  λ h.
      let (d, e, a, b, apart, at_d, at_e, clash) = subst (HavePair IsConflict) (fun_ext version) (
        has_concurrent_sound versions tidy
          (rw (reported-collect_conflicts path all sorted) at h)) in
      (d, e, a, b, apart, at_d, at_e, Clash-of_is_conflict a b clash),
  λ (d, e, a, b, apart, at_d, at_e, clash).
      reported-collect_conflicts path all sorted
      ∙ has_concurrent_complete d e a b versions apart (version d ∙ at_d) (version e ∙ at_e)
          (is_conflict-of_Clash a b clash),
)
  where
    all : Map Text Versions
    all = add_manifests manifests []

    sorted : Sorted.IsSorted all
    sorted = (add_manifests-IsTidy manifests [] (tt, tt)).0

    versions : Versions
    versions = value_or [] (Map.lookup path all)

    tidy : Sorted.IsSorted versions
    tidy = lookup-AllSorted path all (add_manifests-IsTidy manifests [] (tt, tt)).1

    or_none : (o : Option FileMetadata) → or_else o none ≡ o
    or_none none = refl
    or_none (some a) = refl

    version : (d : Text) → Map.lookup d versions ≡ version_at manifests path d
    version d =
        gathered-add_manifests d path manifests [] s
        ∙ (unfold Map.lookup in or_none (version_at manifests path d))
