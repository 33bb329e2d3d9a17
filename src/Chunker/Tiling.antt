-- ===== src/Chunker/Tiling.antt =====
-- The chunks of src/cdc_chunker.cpp, against their buffer.
use caravault.Base.{
  ℕ, ◌+◌, ◌-◌, ◌≤◌, ◌<◌, ◌≡◌, refl, ◌⊎◌, inl, inr, true, false, List, [], ◌∷◌, ltb, ltb→lt,
  ltb_false→le, Text, length, arith, Bool-cases, ◌%◌, subst,
}
use caravault.VersionVector.{u64_mod}
use caravault.Planner.Paths.{prefix}
use caravault.Executor.Writing.{suffix}
use caravault.Chunker.{
  Chunk, CdcChunker, min_chunk_size, max_chunk_size, roll, is_cut, chunk_loop, chunk_buffer,
}

-- A chunk at a position of the data: its bytes are hashed, and it is not empty and not above the
-- largest size.
pub record IsChunk (sha256 : Text → Text) (bytes : Text) (base start : ℕ) (c : Chunk) : Type 0 where
  pub offset : c.offset ≡ (base + start) % u64_mod
  pub hash : c.hash ≡ sha256 (prefix c.size (suffix start bytes))
  pub positive : 0 < c.size
  pub bounded : c.size ≤ max_chunk_size

-- The chunks follow one another from a position to the end, and all but the last have the least size.
abbrev pub IsTiling : (Text → Text) → Text → ℕ → ℕ → List Chunk → Type 0
IsTiling sha256 bytes base start [] = start ≡ length bytes
IsTiling sha256 bytes base start (c ∷ cs) =
    IsChunk sha256 bytes base start c
    × ((min_chunk_size ≤ c.size) ⊎ (cs ≡ []))
    × IsTiling sha256 bytes base (start + c.size) cs

is_cut-min : (mask n fp : ℕ) → is_cut mask n fp ≡ true → min_chunk_size ≤ n
unfolding is_cut
is_cut-min mask n fp h = ground arith

is_cut-false : (mask n fp : ℕ) → is_cut mask n fp ≡ false → n < max_chunk_size
unfolding is_cut
is_cut-false mask n fp h = ground arith

module _ (sha256 : Text → Text) (mask : ℕ) (bytes : Text) (base : ℕ) where
  chunk_loop-IsTiling :
      (i start fp : ℕ) (left : Text)
      → start ≤ i
      → i < start + max_chunk_size
      → i + length left ≡ length bytes
      → IsTiling sha256 bytes base start (chunk_loop sha256 mask bytes base i start fp left)
  unfolding chunk_loop
  chunk_loop-IsTiling i start fp [] h k e = elim (Bool-cases (ltb start (length bytes))) [
    | inl y ↦ simp y (
      record {
        offset = refl;
        hash = refl;
        positive = omega (arith, ltb→lt start (length bytes) y);
        bounded = omega arith;
      },
      inr refl,
      omega (arith, ltb→lt start (length bytes) y),
    )
    | inr y ↦ simp y (omega (arith, ltb_false→le start (length bytes) y))
  ]
  chunk_loop-IsTiling i start fp (byte ∷ left) h k e =
      let n = i - start + 1 in
      let meet : i + 1 ≡ start + n = omega arith in
      elim (Bool-cases (is_cut mask n (roll fp byte))) [
        | inl y ↦ simp y (
          record { offset = refl; hash = refl; positive = omega arith; bounded = omega arith },
          inl (is_cut-min mask n (roll fp byte) y),
          subst
              (λ s.
                IsTiling sha256 bytes base s
                  (chunk_loop sha256 mask bytes base (i + 1) (i + 1) 0 left))
              meet
              (chunk_loop-IsTiling (i + 1) (i + 1) 0 left (omega arith) (omega arith)
                (omega arith)),
        )
        | inr y ↦ simp y (
            chunk_loop-IsTiling (i + 1) start (roll fp byte) left (omega arith)
              (omega (arith, is_cut-false mask n (roll fp byte) y)) (omega arith))
      ]

-- The chunks of a buffer are consecutive, cover it to its end, carry the hashes of their bytes and have
-- at most the largest size; all but the last have at least the least size.
pub chunk_buffer-IsTiling :
    (sha256 : Text → Text) (c : CdcChunker) (bytes : Text) (base : ℕ)
    → IsTiling sha256 bytes base 0 (chunk_buffer sha256 c bytes base)
unfolding chunk_buffer
chunk_buffer-IsTiling sha256 c bytes base =
    chunk_loop-IsTiling sha256 c.mask bytes base 0 0 0 bytes (omega arith) (omega arith)
      (omega arith)
