-- ===== src/BloomFilter.antt =====
-- `BloomFilter` of src/bloom_filter.cpp and include/bloom_filter.hpp. The two sizes that the constructor
-- computes in floating point are its arguments here.
use Prim.Native.Nat.{bit_xor}
use native.Mathlib.Nat.{mod-lt}
use caravault.Base.{
  ℕ, zero, suc, ◌+◌, ◌*◌, ◌/◌, ◌%◌, ◌<◌, ◌≡◌, refl, ◌∙◌, Bool, true, false, some, List, [], ◌∷◌,
  Text, length, get_elem?, set, replicate, not, if◌then◌else◌, arith, In, here, there, subst,
}
use caravault.Manifest.{value_or}
use caravault.VersionVector.{u64_mod}

pub record BloomFilter : Type 0 where
  pub bits : List Bool
  pub num_hash_functions : ℕ

abbrev pub filter_of : ℕ → ℕ → BloomFilter
filter_of bit_count hash_count = record {
  bits = replicate bit_count false;
  num_hash_functions = hash_count;
}

-- The loop of `hash_position`: FNV-1a on 64 bits.
unfoldable pub fnv : ℕ → Text → ℕ
fnv h [] = h
fnv h (c ∷ item) = fnv ((bit_xor h c * 1099511628211) % u64_mod) item

-- `bit_count` is `bits_.size()`.
unfoldable pub hash_position : ℕ → Text → ℕ → ℕ
hash_position bit_count item seed =
    fnv (bit_xor 14695981039346656037 ((seed * 2654435761) % u64_mod)) item % bit_count

-- The loop of `insert`, for `n` seeds from `i`.
unfoldable pub insert_bits : ℕ → Text → ℕ → ℕ → List Bool → List Bool
insert_bits bit_count item i zero bits = bits
insert_bits bit_count item i (suc n) bits =
    insert_bits bit_count item (i + 1) n (set bits (hash_position bit_count item i) true)

unfoldable pub insert : Text → BloomFilter → BloomFilter
insert item f = record f { bits = insert_bits (length f.bits) item 0 f.num_hash_functions f.bits }

-- The loop of `might_contain`, for `n` seeds from `i`.
unfoldable pub check_bits : ℕ → Text → ℕ → ℕ → List Bool → Bool
check_bits bit_count item i zero bits = true
check_bits bit_count item i (suc n) bits =
    let rest = check_bits bit_count item (i + 1) n bits in
    if not (value_or false (get_elem? bits (hash_position bit_count item i))) then false else rest

unfoldable pub might_contain : Text → BloomFilter → Bool
might_contain item f = check_bits (length f.bits) item 0 f.num_hash_functions f.bits

abbrev pub cleared : List Bool → List Bool
cleared [] = []
cleared (b ∷ bits) = false ∷ cleared bits

unfoldable pub clear : BloomFilter → BloomFilter
clear f = record f { bits = cleared f.bits }

unfoldable pub size_bytes : BloomFilter → ℕ
size_bytes f = (length f.bits + 7) / 8

unfoldable pub insert_all : List Text → BloomFilter → BloomFilter
insert_all [] f = f
insert_all (item ∷ items) f = insert_all items (insert item f)

abbrev IsOn : List Bool → ℕ → Type 0
IsOn bits p = get_elem? bits p ≡ some true

length-set : (bits : List Bool) (p : ℕ) → length (set bits p true) ≡ length bits
length-set [] p = refl
length-set (b ∷ bits) zero = refl
length-set (b ∷ bits) (suc p) = omega (arith, length-set bits p)

set-IsOn : (bits : List Bool) (p : ℕ) → p < length bits → IsOn (set bits p true) p
set-IsOn [] p h = ground arith
set-IsOn (b ∷ bits) zero h = refl
set-IsOn (b ∷ bits) (suc p) h = set-IsOn bits p (omega arith)

IsOn-set : (bits : List Bool) (p q : ℕ) → IsOn bits q → IsOn (set bits p true) q
IsOn-set [] p q h = h
IsOn-set (b ∷ bits) zero zero h = refl
IsOn-set (b ∷ bits) zero (suc q) h = h
IsOn-set (b ∷ bits) (suc p) zero h = h
IsOn-set (b ∷ bits) (suc p) (suc q) h = IsOn-set bits p q h

-- All bits of the item are set, for `n` seeds from `i`.
abbrev IsMarked : ℕ → Text → ℕ → ℕ → List Bool → Type 0
IsMarked m item i zero bits = Unit
IsMarked m item i (suc n) bits = IsOn bits (hash_position m item i) × IsMarked m item (i + 1) n bits

IsMarked-set :
    (m : ℕ) (item : Text) (i n : ℕ) (bits : List Bool) (p : ℕ)
    → IsMarked m item i n bits
    → IsMarked m item i n (set bits p true)
IsMarked-set m item i zero bits p k = tt
IsMarked-set m item i (suc n) bits p (h, k) =
    (IsOn-set bits p (hash_position m item i) h, IsMarked-set m item (i + 1) n bits p k)

IsMarked-insert_bits :
    (m : ℕ) (item other : Text) (i n j k : ℕ) (bits : List Bool)
    → IsMarked m item i n bits
    → IsMarked m item i n (insert_bits m other j k bits)
unfolding insert_bits
IsMarked-insert_bits m item other i n j zero bits h = h
IsMarked-insert_bits m item other i n j (suc k) bits h =
    IsMarked-insert_bits m item other i n (j + 1) k _
      (IsMarked-set m item i n bits (hash_position m other j) h)

IsOn-insert_bits :
    (m : ℕ) (other : Text) (j k q : ℕ) (bits : List Bool)
    → IsOn bits q
    → IsOn (insert_bits m other j k bits) q
unfolding insert_bits
IsOn-insert_bits m other j zero q bits h = h
IsOn-insert_bits m other j (suc k) q bits h =
    IsOn-insert_bits m other (j + 1) k q _ (IsOn-set bits (hash_position m other j) q h)

length-insert_bits :
    (m : ℕ) (item : Text) (j k : ℕ) (bits : List Bool)
    → length (insert_bits m item j k bits) ≡ length bits
unfolding insert_bits
length-insert_bits m item j zero bits = refl
length-insert_bits m item j (suc k) bits =
    length-insert_bits m item (j + 1) k _ ∙ length-set bits (hash_position m item j)

insert_bits-IsMarked :
    (m : ℕ) (item : Text) (i n : ℕ) (bits : List Bool)
    → length bits ≡ m
    → 0 < m
    → IsMarked m item i n (insert_bits m item i n bits)
unfolding insert_bits hash_position
insert_bits-IsMarked m item i zero bits e h = tt
insert_bits-IsMarked m item i (suc n) bits e h =
    let p = hash_position m item i in
    let below : p < length bits = rw e (mod-lt _ h) in
    (
      IsOn-insert_bits m item (i + 1) n p (set bits p true) (set-IsOn bits p below),
      insert_bits-IsMarked m item (i + 1) n (set bits p true) (length-set bits p ∙ e) h,
    )

check_bits-of_IsMarked :
    (m : ℕ) (item : Text) (i n : ℕ) (bits : List Bool)
    → IsMarked m item i n bits
    → check_bits m item i n bits ≡ true
unfolding check_bits
check_bits-of_IsMarked m item i zero bits k = refl
check_bits-of_IsMarked m item i (suc n) bits (h, k) =
    rw h (check_bits-of_IsMarked m item (i + 1) n bits k)

abbrev Knows : Text → BloomFilter → Type 0
Knows item f = IsMarked (length f.bits) item 0 f.num_hash_functions f.bits

Knows-insert : (item other : Text) (f : BloomFilter) → Knows item f → Knows item (insert other f)
unfolding insert
Knows-insert item other f k =
    rw (length-insert_bits (length f.bits) other 0 f.num_hash_functions f.bits) (
      IsMarked-insert_bits (length f.bits) item other 0 f.num_hash_functions 0 f.num_hash_functions
        f.bits k)

insert-Knows : (item : Text) (f : BloomFilter) → 0 < length f.bits → Knows item (insert item f)
unfolding insert
insert-Knows item f h =
    rw (length-insert_bits (length f.bits) item 0 f.num_hash_functions f.bits)
      (insert_bits-IsMarked (length f.bits) item 0 f.num_hash_functions f.bits refl h)

Knows-insert_all :
    (item : Text) (items : List Text) (f : BloomFilter)
    → Knows item f
    → Knows item (insert_all items f)
unfolding insert_all
Knows-insert_all item [] f k = k
Knows-insert_all item (x ∷ items) f k =
    Knows-insert_all item items (insert x f) (Knows-insert item x f k)

insert_all-Knows :
    (item : Text) (items : List Text) (f : BloomFilter)
    → 0 < length f.bits
    → In item items
    → Knows item (insert_all items f)
unfolding insert_all
insert_all-Knows item [] f h i = elim i [ ]
insert_all-Knows item (x ∷ items) f h (here e) =
    Knows-insert_all item items (insert x f)
      (subst (λ y. Knows item (insert y f)) e (insert-Knows item f h))
insert_all-Knows item (x ∷ items) f h (there i) =
    insert_all-Knows item items (insert x f)
      (unfold insert in rw (length-insert_bits (length f.bits) x 0 f.num_hash_functions f.bits) h) i

-- No false negatives: a filter of at least one bit might contain every item that was put into it,
-- whatever else was.
pub might_contain-insert_all :
    (item : Text) (items : List Text) (f : BloomFilter)
    → 0 < length f.bits
    → In item items
    → might_contain item (insert_all items f) ≡ true
unfolding might_contain
might_contain-insert_all item items f h i =
    check_bits-of_IsMarked _ item 0 _ _ (insert_all-Knows item items f h i)
