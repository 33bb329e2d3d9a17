-- ===== src/Conflict/Strategies.antt =====
-- What each search of `resolve` in src/conflict_resolver.cpp finds, and what it means that it finds
-- nothing.
use caravault.Base.{
  ◌≡◌, ◌≢◌, inl, inr, refl, subst, true, none, some, [], ◌∷◌, arith, =?_refl, Text, text_ord,
  cmp_text_iff, Bool-cases,
}
use caravault.Base.Map
use caravault.Base.Map.{Map}
use caravault.Base.Map.Sorted
use caravault.VersionVector.{compare}
use caravault.VersionVector.Progress.{IsAtLeast}
use caravault.Manifest.{FileMetadata}
use caravault.Conflict.{Versions, dominates_all, find_dominant}

-- `m` is at least as new as the version of every drive but `w`.
abbrev pub CoversOthers : Text → FileMetadata → Versions → Type 0
CoversOthers w m versions =
    (d : Text) (n : FileMetadata)
    → Map.lookup d versions ≡ some n
    → d ≢ w
    → IsAtLeast (compare m.version_vector n.version_vector)

abbrev pub IsDominant : Versions → Text → Type 0
IsDominant versions w =
    (m : FileMetadata) × (Map.lookup w versions ≡ some m) × CoversOthers w m versions

dominates_all→CoversOthers :
    (w : Text) (m : FileMetadata) (versions : Versions)
    → dominates_all w m versions ≡ true
    → CoversOthers w m versions
unfolding dominates_all Map.lookup
dominates_all→CoversOthers w m [] h d n e ne = ground arith
dominates_all→CoversOthers w m ((o, v) ∷ versions) h d n e ne = ground (
  arith,
  dominates_all→CoversOthers w m versions (ground arith) d n,
  cmp_text_iff o w,
  cmp_text_iff d o,
)

CoversOthers-tail :
    (w o : Text) (m v : FileMetadata) (versions : Versions)
    → Sorted.IsAbove o versions
    → CoversOthers w m ((o, v) ∷ versions)
    → CoversOthers w m versions
CoversOthers-tail w o m v versions a c d n e ne = c d n (Sorted.lookup-cons d o n v versions a e) ne

CoversOthers→dominates_all :
    (w : Text) (m : FileMetadata) (versions : Versions)
    → Sorted.IsSorted versions
    → CoversOthers w m versions
    → dominates_all w m versions ≡ true
unfolding dominates_all Map.lookup
CoversOthers→dominates_all w m [] s c = refl
CoversOthers→dominates_all w m ((o, v) ∷ versions) (a, s) c = ground (
  arith,
  CoversOthers→dominates_all w m versions s (CoversOthers-tail w o m v versions a c),
  c o v (ground (arith, =?_refl o)),
  cmp_text_iff o w,
)

pub find_dominant_sound :
    (versions candidates : Versions) (w : Text)
    → Sorted.IsSorted candidates
    → find_dominant versions candidates ≡ some w
    → (m : FileMetadata) × (Map.lookup w candidates ≡ some m) × CoversOthers w m versions
unfolding find_dominant
find_dominant_sound versions [] w s e = cc
find_dominant_sound versions ((k, m) ∷ candidates) w (a, s) e =
    elim (Bool-cases (dominates_all k m versions)) [
      | inl t ↦
          let same : k ≡ w = ground arith in
          (
            m,
            unfold Map.lookup in ground (arith, cmp_text_iff w k),
            subst (λ x. CoversOthers x m versions) same (dominates_all→CoversOthers k m versions t),
          )
      | inr t ↦
          let (n, found, c) = find_dominant_sound versions candidates w s (ground arith) in
          (n, Sorted.lookup-cons w k n m candidates a found, c)
    ]

pub find_dominant_complete :
    (versions candidates : Versions) (w : Text) (m : FileMetadata)
    → Sorted.IsSorted versions
    → find_dominant versions candidates ≡ none
    → Map.lookup w candidates ≡ some m
    → ¬ (CoversOthers w m versions)
unfolding find_dominant Map.lookup
find_dominant_complete versions [] w m s e f c = cc
find_dominant_complete versions ((k, n) ∷ candidates) w m s e f c = ground (
  arith,
  find_dominant_complete versions candidates w m s (ground arith),
  CoversOthers→dominates_all w m versions s c,
  cmp_text_iff w k,
)
