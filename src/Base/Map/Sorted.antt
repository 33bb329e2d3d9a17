-- ===== src/Base/Map/Sorted.antt =====
-- The invariant of `std::map`: keys stand in ascending order, so each key stands once.
use Prim.Native.Nat.{Ordering}
use mathlib.Core.Path.{◌≡◌, refl, ◌∙◌}
use mathlib.Core.Option.{Option, none, some}
use mathlib.Core.List.{[], ◌∷◌}
use native.Mathlib.Omega.{arith}
use caravault.Base.Order.{Ord}
use caravault.Base.Map
use caravault.Base.Map.{Map}

abbrev pub or_else {ℓ} : {A : Type ℓ} → Option A → Option A → Option A
or_else none x = x
or_else (some v) x = some v

module _ {ℓ κ} {K : Type ℓ} {V : Type κ} ⦃o : Ord K⦄ where
  -- Every key of the map comes after `k`.
  abbrev pub IsAbove : K → Map K V → Type 0
  IsAbove k [] = Unit
  IsAbove k ((j, _) ∷ m) = (o.cmp k j ≡ Ordering.lt) × IsAbove k m

  abbrev pub IsSorted : Map K V → Type 0
  IsSorted [] = Unit
  IsSorted ((k, _) ∷ m) = IsAbove k m × IsSorted m

  pub IsAbove-trans : (j k : K) (m : Map K V) → o.cmp j k ≡ Ordering.lt → IsAbove k m → IsAbove j m
  IsAbove-trans j k [] h a = tt
  IsAbove-trans j k ((i, v) ∷ m) h (p, a) = (o.cmp_trans j k i h p, IsAbove-trans j k m h a)

  insert-IsAbove :
      (j k : K) (v : V) (m : Map K V)
      → o.cmp j k ≡ Ordering.lt
      → IsAbove j m
      → IsAbove j (Map.insert k v m)
  unfolding Map.insert
  insert-IsAbove j k v [] h a = (h, tt)
  insert-IsAbove j k v ((i, w) ∷ m) h (p, a) = ground (arith, insert-IsAbove j k v m h a)

  -- Assignment keeps the order.
  pub insert-IsSorted : (k : K) (v : V) (m : Map K V) → IsSorted m → IsSorted (Map.insert k v m)
  unfolding Map.insert
  insert-IsSorted k v [] s = (tt, tt)
  insert-IsSorted k v ((i, w) ∷ m) (a, s) = ground (
    arith,
    insert-IsSorted k v m s,
    insert-IsAbove i k v m,
    IsAbove-trans k i m,
    o.cmp_swap' k i,
    o.cmp_iff k i,
  )

  pub lookup-of_IsAbove : (k : K) (m : Map K V) → IsAbove k m → Map.lookup k m ≡ none
  unfolding Map.lookup
  lookup-of_IsAbove k [] a = refl
  lookup-of_IsAbove k ((j, v) ∷ m) (p, a) = ground (arith, lookup-of_IsAbove k m a)

  same_rest :
      (k j : K) (v w : V) (m n : Map K V)
      → IsAbove k m
      → IsAbove j n
      → k ≡ j
      → ((x : K) → Map.lookup x ((k, v) ∷ m) ≡ Map.lookup x ((j, w) ∷ n))
      → (x : K) → Map.lookup x m ≡ Map.lookup x n
  unfolding Map.lookup
  same_rest k j v w m n a b e h x =
      ground
        (arith, h x, o.cmp_iff x k, o.cmp_iff x j, lookup-of_IsAbove k m a, lookup-of_IsAbove j n b)

  same_value :
      (k j : K) (v w : V) (m n : Map K V)
      → k ≡ j
      → Map.lookup k ((k, v) ∷ m) ≡ Map.lookup k ((j, w) ∷ n)
      → v ≡ w
  unfolding Map.lookup
  same_value k j v w m n e h = ground (arith, o.cmp_iff k k, o.cmp_iff k j)

  same_key :
      (k j : K) (v w : V) (m n : Map K V)
      → IsAbove k m
      → IsAbove j n
      → ((x : K) → Map.lookup x ((k, v) ∷ m) ≡ Map.lookup x ((j, w) ∷ n))
      → k ≡ j
  unfolding Map.lookup
  same_key k j v w m n a b h = ground (
    arith,
    h k,
    h j,
    o.cmp_iff k j,
    o.cmp_iff j k,
    o.cmp_iff k k,
    o.cmp_iff j j,
    o.cmp_swap' k j,
    lookup-of_IsAbove k n,
    lookup-of_IsAbove j m,
    IsAbove-trans k j n,
    IsAbove-trans j k m,
  )

  -- A sorted map is determined by its lookups.
  pub ext :
      (m n : Map K V)
      → IsSorted m
      → IsSorted n
      → ((x : K) → Map.lookup x m ≡ Map.lookup x n)
      → m ≡ n
  ext [] [] s t h = refl
  ext [] ((j, w) ∷ n) s t h = unfold Map.lookup in ground (arith, h j, o.cmp_iff j j)
  ext ((k, v) ∷ m) [] s t h = unfold Map.lookup in ground (arith, h k, o.cmp_iff k k)
  ext ((k, v) ∷ m) ((j, w) ∷ n) (a, s) (b, t) h =
      let e = same_key k j v w m n a b h in
      cc (e, same_value k j v w m n e (h k), ext m n s t (same_rest k j v w m n a b e h))

  -- Assigning the entries of a map one by one.
  unfoldable pub insert_all : Map K V → Map K V → Map K V
  insert_all acc [] = acc
  insert_all acc ((k, v) ∷ m) = insert_all (Map.insert k v acc) m

  pub lookup-insert_all :
      (d : K) (acc m : Map K V)
      → IsSorted m
      → Map.lookup d (insert_all acc m) ≡ or_else (Map.lookup d m) (Map.lookup d acc)
  unfolding insert_all Map.lookup
  lookup-insert_all d acc [] s = refl
  lookup-insert_all d acc ((k, v) ∷ m) (a, s) = ground (
    arith,
    lookup-insert_all d (Map.insert k v acc) m s,
    Map.lookup-insert d k v acc,
    lookup-of_IsAbove k m a,
    o.cmp_iff d k,
  )

  insert_all-IsSorted : (acc m : Map K V) → IsSorted acc → IsSorted (insert_all acc m)
  unfolding insert_all
  insert_all-IsSorted acc [] s = s
  insert_all-IsSorted acc ((k, v) ∷ m) s =
      insert_all-IsSorted (Map.insert k v acc) m (insert-IsSorted k v acc s)

  pub insert_all-nil : (m : Map K V) → IsSorted m → insert_all [] m ≡ m
  unfolding Map.lookup
  insert_all-nil m s =
      ext (insert_all [] m) m (insert_all-IsSorted [] m tt) s
        λ x. lookup-insert_all x [] m s ∙ or_else-lookup x (Map.lookup x m)
    where
      or_else-lookup : (x : K) (r : Option V) → or_else r (Map.lookup x []) ≡ r
      or_else-lookup x none = refl
      or_else-lookup x (some v) = refl

  -- An entry behind the first is found as before.
  pub lookup-cons :
      (k j : K) (v w : V) (m : Map K V)
      → IsAbove j m
      → Map.lookup k m ≡ some v
      → Map.lookup k ((j, w) ∷ m) ≡ some v
  unfolding Map.lookup
  lookup-cons k j v w m a e = ground (arith, o.cmp_iff k j, lookup-of_IsAbove j m a)
