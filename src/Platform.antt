-- ===== src/Platform.antt =====
-- `normalize_path`, `serialize_permissions` and `deserialize_permissions` of src/platform.cpp.
use Prim.Native.Nat.{bit_and, bit_or}
use caravault.Base.{
  ℕ, ◌+◌, ◌-◌, ◌*◌, ◌≡◌, refl, ◌∙◌, ap, Bool, true, false, [], ◌∷◌, Text, text_ord, length,
  get_elem?, is_empty, not, ◌==◌, leb, ltb, ◌&&◌, if◌then◌else◌, arith, All, ◌≢◌,
}
use caravault.Manifest.{value_or}

abbrev pub to_slash : ℕ → ℕ
to_slash c = if c == 92 then 47 else c

-- `std::replace(…, '\\', '/')`
unfoldable pub replace_slashes : Text → Text
replace_slashes [] = []
replace_slashes (c ∷ s) = to_slash c ∷ replace_slashes s

-- The text without the slashes at its end.
unfoldable pub strip_slashes : Text → Text
strip_slashes [] = []
strip_slashes (c ∷ s) =
    let rest = strip_slashes s in if is_empty rest && (c == 47) then [] else c ∷ rest

-- The loop pops slashes while more than one byte is left: it never pops the first.
abbrev pub pop_slashes : Text → Text
pop_slashes [] = []
pop_slashes (c ∷ s) = c ∷ strip_slashes s

unfoldable pub normalize_path : Text → Text
normalize_path path = pop_slashes (replace_slashes path)

pub record FilePermissions : Type 0 where
  pub owner_read : Bool
  pub owner_write : Bool
  pub owner_exec : Bool
  pub group_read : Bool
  pub group_write : Bool
  pub group_exec : Bool
  pub other_read : Bool
  pub other_write : Bool
  pub other_exec : Bool
  pub raw_mode : ℕ

abbrev pub digit_of : Bool → Bool → Bool → ℕ
digit_of r w x = bit_or (bit_or (if r then 4 else 0) (if w then 2 else 0)) (if x then 1 else 0)

-- The octal digits, as bytes.
unfoldable pub serialize_permissions : FilePermissions → Text
serialize_permissions p =
    (48 + digit_of p.owner_read p.owner_write p.owner_exec)
    ∷ (48 + digit_of p.group_read p.group_write p.group_exec)
    ∷ (48 + digit_of p.other_read p.other_write p.other_exec)
    ∷ []

abbrev pub no_permissions : FilePermissions
no_permissions = record {
  owner_read = false;
  owner_write = false;
  owner_exec = false;
  group_read = false;
  group_write = false;
  group_exec = false;
  other_read = false;
  other_write = false;
  other_exec = false;
  raw_mode = 0;
}

unfoldable pub digit : ℕ → ℕ
digit c = if leb 48 c && leb c 55 then c - 48 else 0

-- `(d & bit) != 0`
abbrev pub has_bit : ℕ → ℕ → Bool
has_bit d bit = not (bit_and d bit == 0)

abbrev pub permissions_of : ℕ → ℕ → ℕ → FilePermissions
permissions_of owner group other = record {
  owner_read = has_bit owner 4;
  owner_write = has_bit owner 2;
  owner_exec = has_bit owner 1;
  group_read = has_bit group 4;
  group_write = has_bit group 2;
  group_exec = has_bit group 1;
  other_read = has_bit other 4;
  other_write = has_bit other 2;
  other_exec = has_bit other 1;
  raw_mode = bit_or (bit_or (owner * 64) (group * 8)) other;
}

-- The digit at a position before the end.
abbrev pub digit_before_end : Text → ℕ → ℕ
digit_before_end s n = digit (value_or 0 (get_elem? s (length s - n)))

unfoldable pub deserialize_permissions : Text → FilePermissions
deserialize_permissions s =
    if ltb (length s) 3
    then no_permissions
    else permissions_of (digit_before_end s 3) (digit_before_end s 2) (digit_before_end s 1)

digit_lem : (r w x : Bool) → digit (48 + digit_of r w x) ≡ digit_of r w x
unfolding digit
digit_lem true true true = refl
digit_lem true true false = refl
digit_lem true false true = refl
digit_lem true false false = refl
digit_lem false true true = refl
digit_lem false true false = refl
digit_lem false false true = refl
digit_lem false false false = refl

has_bit-digit_of :
    (r w x : Bool)
    → (has_bit (digit_of r w x) 4 ≡ r)
      × (has_bit (digit_of r w x) 2 ≡ w)
      × (has_bit (digit_of r w x) 1 ≡ x)
has_bit-digit_of true true true = (refl, refl, refl)
has_bit-digit_of true true false = (refl, refl, refl)
has_bit-digit_of true false true = (refl, refl, refl)
has_bit-digit_of true false false = (refl, refl, refl)
has_bit-digit_of false true true = (refl, refl, refl)
has_bit-digit_of false true false = (refl, refl, refl)
has_bit-digit_of false false true = (refl, refl, refl)
has_bit-digit_of false false false = (refl, refl, refl)

-- The mode that the nine flags make.
abbrev pub mode_of : FilePermissions → ℕ
mode_of p =
    bit_or
      (bit_or (digit_of p.owner_read p.owner_write p.owner_exec * 64)
        (digit_of p.group_read p.group_write p.group_exec * 8))
      (digit_of p.other_read p.other_write p.other_exec)

-- Permissions are read back from their text, with the mode that the flags make as raw mode.
pub deserialize-serialize_permissions :
    (p : FilePermissions)
    → deserialize_permissions (serialize_permissions p) ≡ record p { raw_mode = mode_of p }
unfolding deserialize_permissions serialize_permissions
deserialize-serialize_permissions p =
    let (a, b, c) = has_bit-digit_of p.owner_read p.owner_write p.owner_exec in
    let (d, e, f) = has_bit-digit_of p.group_read p.group_write p.group_exec in
    let (g, h, i) = has_bit-digit_of p.other_read p.other_write p.other_exec in
    rw
      (
        digit_lem p.owner_read p.owner_write p.owner_exec,
        digit_lem p.group_read p.group_write p.group_exec,
        digit_lem p.other_read p.other_write p.other_exec,
      )
      λ j. record {
        owner_read = a j;
        owner_write = b j;
        owner_exec = c j;
        group_read = d j;
        group_write = e j;
        group_exec = f j;
        other_read = g j;
        other_write = h j;
        other_exec = i j;
        raw_mode = mode_of p;
      }

strip_slashes_idem : (s : Text) → strip_slashes (strip_slashes s) ≡ strip_slashes s
unfolding strip_slashes
strip_slashes_idem [] = refl
strip_slashes_idem (c ∷ s) = ground (arith, strip_slashes_idem s)

abbrev pub HasNoBackslash : Text → Type 0
HasNoBackslash = All (λ c. c ≢ 92)

replace_slashes-HasNoBackslash : (s : Text) → HasNoBackslash (replace_slashes s)
unfolding replace_slashes
replace_slashes-HasNoBackslash [] = tt
replace_slashes-HasNoBackslash (c ∷ s) = (ground arith, replace_slashes-HasNoBackslash s)

replace_slashes-of_HasNoBackslash : (s : Text) → HasNoBackslash s → replace_slashes s ≡ s
unfolding replace_slashes
replace_slashes-of_HasNoBackslash [] h = refl
replace_slashes-of_HasNoBackslash (c ∷ s) (h, k) =
    ground (arith, replace_slashes-of_HasNoBackslash s k)

strip_slashes-HasNoBackslash : (s : Text) → HasNoBackslash s → HasNoBackslash (strip_slashes s)
unfolding strip_slashes
strip_slashes-HasNoBackslash [] h = tt
strip_slashes-HasNoBackslash (c ∷ s) (h, k) = ground (arith, strip_slashes-HasNoBackslash s k)

pop_slashes-HasNoBackslash : (s : Text) → HasNoBackslash s → HasNoBackslash (pop_slashes s)
pop_slashes-HasNoBackslash [] h = tt
pop_slashes-HasNoBackslash (c ∷ s) (h, k) = (h, strip_slashes-HasNoBackslash s k)

pop_slashes_idem : (s : Text) → pop_slashes (pop_slashes s) ≡ pop_slashes s
pop_slashes_idem [] = refl
pop_slashes_idem (c ∷ s) = ap (λ t. c ∷ t) (strip_slashes_idem s)

-- A normal path has no backslash, and is its own normal form.
pub normalize_path_lem :
    (path : Text)
    → HasNoBackslash (normalize_path path)
      × (normalize_path (normalize_path path) ≡ normalize_path path)
unfolding normalize_path
normalize_path_lem path =
    let clean =
      pop_slashes-HasNoBackslash (replace_slashes path) (replace_slashes-HasNoBackslash path) in
    (
      clean,
      ap pop_slashes (replace_slashes-of_HasNoBackslash (pop_slashes (replace_slashes path)) clean)
          ∙ pop_slashes_idem (replace_slashes path),
    )
