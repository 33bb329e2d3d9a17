-- ===== src/Chunker.antt =====
-- `CDCChunker` of src/cdc_chunker.cpp and include/cdc_chunker.hpp. SHA-256 is a parameter, and a file
-- comes as its contents, or `none` where it cannot be read.
pub mod Tiling
use Prim.Native.Nat.{bit_xor, bit_and}
use caravault.Base.{
  ℕ, zero, suc, ◌+◌, ◌-◌, ◌*◌, ◌/◌, ◌%◌, ◌^◌, Bool, true, false, Option, none, some, List, [], ◌∷◌,
  ◌=?◌, ◌==◌, ltb, leb, Text, text_ord, length, get_elem?, not, ◌&&◌, ◌||◌, if◌then◌else◌, select,
  any,
}
use caravault.Base.Results.{Result, ok, err, ◌>>=◌}
use caravault.VersionVector.{u64_mod}
use caravault.Planner.Paths.{prefix}
use caravault.Executor.Writing.{suffix}

pub record Chunk : Type 0 where
  pub offset : ℕ
  pub size : ℕ
  pub hash : Text

abbrev pub min_chunk_size : ℕ
min_chunk_size = 16384

abbrev pub max_chunk_size : ℕ
max_chunk_size = 262144

abbrev pub large_file_threshold : ℕ
large_file_threshold = 1048576

pub data ChunkError : Type 0 where
  bad_size cannot_read : ChunkError

-- `n` rounds of the inner loop of `rabin_table`.
unfoldable pub rabin_rounds : ℕ → ℕ → ℕ
rabin_rounds zero v = v
rabin_rounds (suc n) v =
    rabin_rounds n (if bit_and v 1 == 1 then bit_xor (v / 2) 13827942727904890243 else v / 2)

-- `table[i]`
unfoldable pub rabin : ℕ → ℕ
rabin i = rabin_rounds 8 i

-- The loop of `mask_for_avg`, on fuel: `p` doubles, and wraps at 2 ^ 64.
unfoldable pub double_to : ℕ → ℕ → ℕ → ℕ
double_to zero avg p = p
double_to (suc fuel) avg p =
    let later = double_to fuel avg ((p * 2) % u64_mod) in if ltb p avg then later else p

unfoldable pub mask_for_avg : ℕ → ℕ
mask_for_avg avg = double_to 64 avg 1 - 1

pub record CdcChunker : Type 0 where
  pub avg_chunk_size : ℕ
  pub mask : ℕ

unfoldable pub chunker : ℕ → Result ChunkError CdcChunker
chunker avg =
    if ltb avg min_chunk_size || ltb max_chunk_size avg
    then err bad_size
    else ok (record { avg_chunk_size = avg; mask = mask_for_avg avg })

-- The fingerprint after one more byte.
abbrev pub roll : ℕ → ℕ → ℕ
roll fp byte = bit_xor (fp / 256) (rabin (bit_and (bit_xor fp byte) 255))

-- Does a chunk of this length end here?
unfoldable pub is_cut : ℕ → ℕ → ℕ → Bool
is_cut mask chunk_len fp =
    (leb min_chunk_size chunk_len && (bit_and fp mask == 0)) || leb max_chunk_size chunk_len

module _ (sha256 : Text → Text) where
  -- The bytes of the data from `start`, as a chunk.
  abbrev pub chunk_at : Text → ℕ → ℕ → ℕ → Chunk
  chunk_at bytes base start size = record {
    offset = (base + start) % u64_mod;
    size = size;
    hash = sha256 (prefix size (suffix start bytes));
  }

  -- The loop at `i`, over the bytes that are left, and the tail behind it.
  unfoldable pub chunk_loop : ℕ → Text → ℕ → ℕ → ℕ → ℕ → Text → List Chunk
  chunk_loop mask bytes base i start fp [] =
      if ltb start (length bytes) then chunk_at bytes base start (length bytes - start) ∷ [] else []
  chunk_loop mask bytes base i start fp (byte ∷ left) =
      let fp' = roll fp byte in
      let chunk_len = i - start + 1 in
      let cut = is_cut mask chunk_len fp' in
      let rest =
        chunk_loop mask bytes base (i + 1) (if cut then i + 1 else start) (if cut then 0 else fp')
          left in
      if cut then chunk_at bytes base start chunk_len ∷ rest else rest

  unfoldable pub chunk_buffer : CdcChunker → Text → ℕ → List Chunk
  chunk_buffer c bytes base = chunk_loop c.mask bytes base 0 0 0 bytes

  unfoldable pub chunk_file : CdcChunker → Option Text → Result ChunkError (List Chunk)
  chunk_file c none = err cannot_read
  chunk_file c (some bytes) =
      if leb (length bytes) large_file_threshold
      then ok (record { offset = 0; size = length bytes; hash = sha256 bytes } ∷ [])
      else ok (chunk_buffer c bytes 0)

abbrev pub has_hash : List Chunk → Text → Bool
has_hash chunks h = any (λ c. c.hash =? h) chunks

unfoldable pub diff_chunks : List Chunk → List Chunk → List Chunk
diff_chunks old_chunks new_chunks = select (λ c. not (has_hash old_chunks c.hash)) new_chunks
