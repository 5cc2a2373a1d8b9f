-- ===== src/Ext2/Bytes.antt =====
-- project3: the bytes of the structures of include/fs.h, little-endian and without gaps but for the
-- two that C puts in, and the two copies that the code makes with `memcpy`.
pub mod Laws
pub mod Words
use xjtu_os_project.Prelude.{
  All, ◌<◌, ℕ, zero, suc, ◌+◌, ◌*◌, ◌/◌, ◌%◌, List, [], ◌∷◌, ◌++◌, get_or, take, drop, replicate,
  length,
}

abbrev pub block_size : ℕ
block_size = 512

abbrev pub zero_block : List ℕ
zero_block = replicate 512 0

-- Each number of the list fits into a byte.
abbrev pub IsBytes : List ℕ → Type 0
IsBytes = All (λ b. b < 256)

-- `memcpy(out, buf + off, n)`
unfoldable pub slice : ℕ → ℕ → List ℕ → List ℕ
slice off n buf = take n (drop off buf)

-- `memcpy(buf + off, src, length src)`
unfoldable pub splice : ℕ → List ℕ → List ℕ → List ℕ
splice off src buf = take off buf ++ (src ++ drop (off + length src) buf)

abbrev pub u16_bytes : ℕ → List ℕ
u16_bytes x = x % 256 ∷ x / 256 % 256 ∷ []

abbrev pub u32_bytes : ℕ → List ℕ
u32_bytes x = x % 256 ∷ x / 256 % 256 ∷ x / 65536 % 256 ∷ x / 16777216 % 256 ∷ []

abbrev pub u64_bytes : ℕ → List ℕ
u64_bytes x = u32_bytes x ++ u32_bytes (x / 4294967296)

abbrev pub u16_at : List ℕ → ℕ → ℕ
u16_at bs o = get_or bs o 0 + 256 * get_or bs (o + 1) 0

abbrev pub u32_at : List ℕ → ℕ → ℕ
u32_at bs o = u16_at bs o + 65536 * u16_at bs (o + 2)

abbrev pub u64_at : List ℕ → ℕ → ℕ
u64_at bs o = u32_at bs o + 4294967296 * u32_at bs (o + 4)

-- An array of `uint32_t`.
unfoldable pub words_bytes : List ℕ → List ℕ
words_bytes [] = []
words_bytes (w ∷ ws) = u32_bytes w ++ words_bytes ws

unfoldable pub words_at : ℕ → List ℕ → List ℕ
words_at zero bs = []
words_at (suc n) bs = u32_at bs 0 ∷ words_at n (drop 4 bs)
