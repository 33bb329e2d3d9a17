-- ===== src/Conflict/Votes.antt =====
-- The votes, the tombstones and the latest write that `resolve` of src/conflict_resolver.cpp looks for.
use mathlib.Core.List.{append-nil, append_assoc}
use caravault.Base.{
  ℕ, ◌*◌, ◌≤◌, ◌<◌, ◌≡◌, ◌⊎◌, inl, inr, refl, sym, ◌∙◌, true, false, none, some, List, [], ◌∷◌,
  ◌++◌, arith, ◌=?◌, =?_refl, =?_iff, if◌then◌else◌, Text, text_ord, cmp_text_iff, Bool-cases, ltb,
  length, ltb→lt,
}
use caravault.Base.Map
use caravault.Base.Map.{Map}
use caravault.Base.Map.Sorted
use caravault.Manifest.{FileMetadata, value_or}
use caravault.Conflict.{Versions, vote, group_by_hash, find_quorum, find_tombstone, latest, front}

-- The drives whose version is live and has the hash.
pub voters : Text → Versions → List Text
voters hash [] = []
voters hash ((d, m) ∷ versions) =
    let rest = voters hash versions in
    if m.tombstone then rest else if m.hash =? hash then d ∷ rest else rest

-- More than half of the drives vote for the hash.
abbrev pub HasQuorum : Versions → ℕ → Text → Type 0
HasQuorum versions total_drives hash = total_drives < length (voters hash versions) * 2

vote-IsSorted :
    (d : Text) (m : FileMetadata) (groups : Map Text (List Text))
    → Sorted.IsSorted groups
    → Sorted.IsSorted (vote d m groups)
unfolding vote
vote-IsSorted d m groups s = elim (Bool-cases m.tombstone) [
  | inl t ↦ simp t s
  | inr t ↦ simp t (Sorted.insert-IsSorted m.hash _ groups s)
]

pub group_by_hash-IsSorted :
    (groups : Map Text (List Text)) (versions : Versions)
    → Sorted.IsSorted groups
    → Sorted.IsSorted (group_by_hash groups versions)
unfolding group_by_hash
group_by_hash-IsSorted groups [] s = s
group_by_hash-IsSorted groups ((d, m) ∷ versions) s =
    group_by_hash-IsSorted (vote d m groups) versions (vote-IsSorted d m groups s)

lookup-vote :
    (hash d : Text) (m : FileMetadata) (groups : Map Text (List Text))
    → value_or [] (Map.lookup hash (vote d m groups))
      ≡ value_or [] (Map.lookup hash groups)
        ++ (if m.tombstone then [] else if m.hash =? hash then d ∷ [] else [])
unfolding vote
lookup-vote hash d m groups = elim (Bool-cases m.tombstone) [
  | inl t ↦ simp (t, append-nil)
  | inr t ↦
      simp (t, Map.lookup-insert)
        (elim (Bool-cases (m.hash =? hash)) [
          | inl u ↦ let e : hash ≡ m.hash = sym ((=?_iff m.hash hash).0 u) in rw (e, =?_refl m.hash)
          | inr u ↦
              let e : (hash =? m.hash) ≡ false =
                ground (arith, cmp_text_iff hash m.hash, cmp_text_iff m.hash hash) in
              simp (u, e, append-nil)
        ])
]

voters-cons :
    (hash d : Text) (m : FileMetadata) (versions : Versions)
    → voters hash ((d, m) ∷ versions)
      ≡ (if m.tombstone then [] else if m.hash =? hash then d ∷ [] else []) ++ voters hash versions
unfolding voters
voters-cons hash d m versions = ground arith

-- A group is what it was, with the voters behind.
pub lookup-group_by_hash :
    (hash : Text) (groups : Map Text (List Text)) (versions : Versions)
    → value_or [] (Map.lookup hash (group_by_hash groups versions))
      ≡ value_or [] (Map.lookup hash groups) ++ voters hash versions
unfolding group_by_hash
lookup-group_by_hash hash groups [] = unfold voters in rw append-nil
lookup-group_by_hash hash groups ((d, m) ∷ versions) =
    lookup-group_by_hash hash (vote d m groups) versions
    ∙ simp (lookup-vote, voters-cons, append_assoc)

pub find_quorum_sound :
    (total : ℕ) (groups : Map Text (List Text)) (h : Text) (ds : List Text)
    → Sorted.IsSorted groups
    → find_quorum total groups ≡ some (h, ds)
    → (Map.lookup h groups ≡ some ds) × (total < length ds * 2)
unfolding find_quorum
find_quorum_sound total [] h ds s e = cc
find_quorum_sound total ((k, es) ∷ groups) h ds (a, s) e =
    elim (Bool-cases (ltb total (length es * 2))) [
      | inl t ↦ (unfold Map.lookup in ground (arith, cmp_text_iff h k), ground arith)
      | inr t ↦
          let (found, more) = find_quorum_sound total groups h ds s (ground arith) in
          (Sorted.lookup-cons h k ds es groups a found, more)
    ]

pub find_quorum_complete :
    (total : ℕ) (groups : Map Text (List Text)) (h : Text)
    → find_quorum total groups ≡ none
    → length (value_or [] (Map.lookup h groups)) * 2 ≤ total
unfolding find_quorum Map.lookup
find_quorum_complete total [] h e = ground arith
find_quorum_complete total ((k, es) ∷ groups) h e =
    ground (arith, find_quorum_complete total groups h)

-- The first voter has a live version with the hash.
abbrev pub IsVoter : Versions → Text → Text → Type 0
IsVoter versions hash w =
    (m : FileMetadata) × (Map.lookup w versions ≡ some m) × (m.tombstone ≡ false) × (m.hash ≡ hash)

IsVoter-cons :
    (hash w d : Text) (n : FileMetadata) (versions : Versions)
    → Sorted.IsAbove d versions
    → IsVoter versions hash w
    → IsVoter ((d, n) ∷ versions) hash w
IsVoter-cons hash w d n versions a (m, e, live, same) =
    (m, Sorted.lookup-cons w d m n versions a e, live, same)

voters_skip :
    (hash d : Text) (m : FileMetadata) (versions : Versions)
    → (m.tombstone ≡ true) ⊎ ((m.hash =? hash) ≡ false)
    → voters hash ((d, m) ∷ versions) ≡ voters hash versions
unfolding voters
voters_skip hash d m versions h = ground arith

voters_take :
    (hash d : Text) (m : FileMetadata) (versions : Versions)
    → m.tombstone ≡ false
    → (m.hash =? hash) ≡ true
    → voters hash ((d, m) ∷ versions) ≡ d ∷ voters hash versions
unfolding voters
voters_take hash d m versions h k = ground arith

pub front-voters :
    (hash : Text) (versions : Versions)
    → Sorted.IsSorted versions
    → 0 < length (voters hash versions)
    → IsVoter versions hash (front (voters hash versions))
front-voters hash [] s h = unfold voters in elim h [ ]
front-voters hash ((d, m) ∷ versions) (a, s) h = go (front-voters hash versions s)
  where
    skip :
        (m.tombstone ≡ true) ⊎ ((m.hash =? hash) ≡ false)
        → (0 < length (voters hash versions) → IsVoter versions hash (front (voters hash versions)))
        → IsVoter ((d, m) ∷ versions) hash (front (voters hash ((d, m) ∷ versions)))
    skip c ih =
        let e = voters_skip hash d m versions c in
        rw e (IsVoter-cons hash _ d m versions a (ih (rw e at h)))

    go :
        (0 < length (voters hash versions) → IsVoter versions hash (front (voters hash versions)))
        → IsVoter ((d, m) ∷ versions) hash (front (voters hash ((d, m) ∷ versions)))
    go ih = elim (Bool-cases m.tombstone) [
      | inl t ↦ skip (inl t) ih
      | inr t ↦ elim (Bool-cases (m.hash =? hash)) [
        | inl u ↦
            rw (voters_take hash d m versions t u) (m, first_found, t, (=?_iff m.hash hash).0 u)
        | inr u ↦ skip (inr u) ih
      ]
    ]
      where
        first_found : Map.lookup d ((d, m) ∷ versions) ≡ some m
        first_found = unfold Map.lookup in ground (arith, =?_refl d)

-- What the tombstone search finds is a tombstone; if it finds none, every version is live.
pub find_tombstone_sound :
    (versions : Versions) (w : Text)
    → Sorted.IsSorted versions
    → find_tombstone versions ≡ some w
    → (m : FileMetadata) × (Map.lookup w versions ≡ some m) × (m.tombstone ≡ true)
unfolding find_tombstone
find_tombstone_sound [] w s e = cc
find_tombstone_sound ((d, m) ∷ versions) w (a, s) e = elim (Bool-cases m.tombstone) [
  | inl t ↦ (m, unfold Map.lookup in ground (arith, cmp_text_iff w d), t)
  | inr t ↦
      let (n, found, dead) = find_tombstone_sound versions w s (ground arith) in
      (n, Sorted.lookup-cons w d n m versions a found, dead)
]

pub find_tombstone_complete :
    (versions : Versions) (d : Text) (m : FileMetadata)
    → find_tombstone versions ≡ none
    → Map.lookup d versions ≡ some m
    → m.tombstone ≡ false
unfolding find_tombstone Map.lookup
find_tombstone_complete [] d m e f = cc
find_tombstone_complete ((k, n) ∷ versions) d m e f =
    ground (arith, find_tombstone_complete versions d m)

-- The loop for the latest write ends with a time that neither its start nor any version passes.
latest_start : (versions : Versions) (best : Text) (time : ℕ) → time ≤ (latest best time versions).1
unfolding latest
latest_start [] best time = omega arith
latest_start ((k, m) ∷ versions) best time =
    ground (arith, latest_start versions best time, latest_start versions k m.mtime)

pub latest_bound :
    (versions : Versions) (best : Text) (time : ℕ) (d : Text) (n : FileMetadata)
    → Map.lookup d versions ≡ some n
    → n.mtime ≤ (latest best time versions).1
unfolding latest Map.lookup
latest_bound [] best time d n e = cc
latest_bound ((k, m) ∷ versions) best time d n e = ground (
  arith,
  latest_bound versions best time d n,
  latest_bound versions k m.mtime d n,
  latest_start versions best time,
  latest_start versions k m.mtime,
)

-- It ends with the drive and time that it began with, or with a drive that wrote at that time.
abbrev pub IsSource : Versions → Text → ℕ → Text × ℕ → Type 0
IsSource versions best time (w, t) =
    ((w ≡ best) × (t ≡ time))
    ⊎ ((m : FileMetadata) × (Map.lookup w versions ≡ some m) × (m.mtime ≡ t) × (time < t))

pub latest-IsSource :
    (versions : Versions) (best : Text) (time : ℕ)
    → Sorted.IsSorted versions
    → IsSource versions best time (latest best time versions)
unfolding latest
latest-IsSource [] best time s = inl (refl, refl)
latest-IsSource ((k, m) ∷ versions) best time (a, s) = elim (Bool-cases (ltb time m.mtime)) [
  | inl t ↦ simp t (newer (ltb→lt _ _ t) (latest-IsSource versions k m.mtime s))
  | inr t ↦ simp t (older (latest-IsSource versions best time s))
]
  where
    first_found : Map.lookup k ((k, m) ∷ versions) ≡ some m
    first_found = unfold Map.lookup in ground (arith, =?_refl k)

    newer :
        time < m.mtime
        → IsSource versions k m.mtime (latest k m.mtime versions)
        → IsSource ((k, m) ∷ versions) best time (latest k m.mtime versions)
    newer h (inl (e, g)) = inr (m, rw e first_found, sym g, omega arith)
    newer h (inr (n, e, g, j)) = inr (n, Sorted.lookup-cons _ k n m versions a e, g, omega arith)

    older :
        IsSource versions best time (latest best time versions)
        → IsSource ((k, m) ∷ versions) best time (latest best time versions)
    older (inl e) = inl e
    older (inr (n, e, g, j)) = inr (n, Sorted.lookup-cons _ k n m versions a e, g, j)
