-- ===== src/Ext2/Bitmap/Bits.antt =====
-- project3/src/bitmap.c: setting or clearing one bit of a bitmap changes that bit and no other.
use Prim.Native.Nat.{bit_and, bit_or}
use xjtu_os_project.Prelude.{
  ℕ, zero, suc, ◌-◌, ◌/◌, ◌%◌, ◌^◌, ◌<◌, ◌≡◌, refl, inl, inr, List, [], ◌∷◌, Bool, true, false,
  arith, length, get_or, set, get_or-set_self, get_or-set_ne, length-set, if◌then◌else◌, ◌==◌,
  ==_iff, Bool-cases,
}
use xjtu_os_project.Ext2.Bytes.{IsBytes}
use xjtu_os_project.Ext2.Bitmap.{bit_at, bit_set, bit_clear}

-- The test `p` at each number below `m`, by evaluation.
module _ (p : ℕ → Bool) where
  unfoldable pub holds_up_to : ℕ → Bool
  holds_up_to zero = true
  holds_up_to (suc m) = if p m then holds_up_to m else false

  pub holds_up_to-at : (m x : ℕ) → x < m → holds_up_to m ≡ true → p x ≡ true
  unfolding holds_up_to
  holds_up_to-at zero x lt h = absurd (omega arith)
  holds_up_to-at (suc m) x lt h = ground (arith, holds_up_to-at m x)

abbrev cells : (ℕ → ℕ → ℕ → Bool) → Bool
cells p = holds_up_to (λ b. holds_up_to (λ k. holds_up_to (λ j. p b k j) 8) 8) 256

cells-at :
    (p : ℕ → ℕ → ℕ → Bool) (b k j : ℕ) → cells p ≡ true → b < 256 → k < 8 → j < 8 → p b k j ≡ true
cells-at p b k j h hb hk hj =
    holds_up_to-at _ 8 j hj (holds_up_to-at _ 8 k hk (holds_up_to-at _ 256 b hb h))

abbrev or_cell : ℕ → ℕ → ℕ → Bool
or_cell b k j = bit_or b (2 ^ k) % 256 / 2 ^ j % 2 == (if k == j then 1 else b / 2 ^ j % 2)

abbrev and_cell : ℕ → ℕ → ℕ → Bool
and_cell b k j =
    bit_and b (2 ^ 32 - 1 - 2 ^ k) % 256 / 2 ^ j % 2 == (if k == j then 0 else b / 2 ^ j % 2)

or_table : cells or_cell ≡ true
unfolding holds_up_to
or_table = refl

and_table : cells and_cell ≡ true
unfolding holds_up_to
and_table = refl

or_bit :
    (b k j : ℕ)
    → b < 256
    → k < 8
    → j < 8
    → bit_or b (2 ^ k) % 256 / 2 ^ j % 2 ≡ (if k == j then 1 else b / 2 ^ j % 2)
or_bit b k j hb hk hj = (==_iff _ _).0 (cells-at or_cell b k j or_table hb hk hj)

and_bit :
    (b k j : ℕ)
    → b < 256
    → k < 8
    → j < 8
    → bit_and b (2 ^ 32 - 1 - 2 ^ k) % 256 / 2 ^ j % 2 ≡ (if k == j then 0 else b / 2 ^ j % 2)
and_bit b k j hb hk hj = (==_iff _ _).0 (cells-at and_cell b k j and_table hb hk hj)

get_or-lt : (bm : List ℕ) (i : ℕ) → IsBytes bm → get_or bm i 0 < 256
get_or-lt [] i h = omega arith
get_or-lt (b ∷ bm) zero h = h.0
get_or-lt (b ∷ bm) (suc i) h = get_or-lt bm i h.1

pub set-IsBytes : (bm : List ℕ) (i v : ℕ) → v < 256 → IsBytes bm → IsBytes (set bm i v)
set-IsBytes [] i v h bs = tt
set-IsBytes (b ∷ bm) zero v h bs = (h, bs.1)
set-IsBytes (b ∷ bm) (suc i) v h bs = (bs.0, set-IsBytes bm i v h bs.1)

same_byte : (i j : ℕ) → i / 8 ≡ j / 8 → (i % 8 ≡ j % 8) → i ≡ j
same_byte i j h k = omega arith

-- After a bit is set in a bitmap of bytes, it is 1, and every other bit is what it was.
pub bit_at-bit_set :
    (bm : List ℕ) (i j : ℕ)
    → IsBytes bm
    → i / 8 < length bm
    → bit_at (bit_set bm i) j ≡ (if i == j then 1 else bit_at bm j)
unfolding bit_at bit_set
bit_at-bit_set bm i j bs h = elim (Bool-cases (i / 8 == j / 8)) [
  | inl e ↦ ground (
    arith,
    get_or-set_self bm (i / 8) (bit_or (get_or bm (i / 8) 0) (2 ^ (i % 8)) % 256) 0,
    or_bit (get_or bm (i / 8) 0) (i % 8) (j % 8) (get_or-lt bm (i / 8) bs),
    same_byte i j,
  )
  | inr e ↦
      ground (
        arith,
        get_or-set_ne bm (i / 8) (j / 8) (bit_or (get_or bm (i / 8) 0) (2 ^ (i % 8)) % 256) 0,
      )
]

-- After a bit is cleared in a bitmap of bytes, it is 0, and every other bit is what it was.
pub bit_at-bit_clear :
    (bm : List ℕ) (i j : ℕ)
    → IsBytes bm
    → i / 8 < length bm
    → bit_at (bit_clear bm i) j ≡ (if i == j then 0 else bit_at bm j)
unfolding bit_at bit_clear
bit_at-bit_clear bm i j bs h = elim (Bool-cases (i / 8 == j / 8)) [
  | inl e ↦ ground (
    arith,
    get_or-set_self bm (i / 8) (bit_and (get_or bm (i / 8) 0) (2 ^ 32 - 1 - 2 ^ (i % 8)) % 256) 0,
    and_bit (get_or bm (i / 8) 0) (i % 8) (j % 8) (get_or-lt bm (i / 8) bs),
    same_byte i j,
  )
  | inr e ↦ ground (
    arith,
    get_or-set_ne bm (i / 8) (j / 8)
        (bit_and (get_or bm (i / 8) 0) (2 ^ 32 - 1 - 2 ^ (i % 8)) % 256) 0,
  )
]

pub length-bit_set : (bm : List ℕ) (i : ℕ) → length (bit_set bm i) ≡ length bm
unfolding bit_set
length-bit_set bm i = length-set bm (i / 8) _

pub length-bit_clear : (bm : List ℕ) (i : ℕ) → length (bit_clear bm i) ≡ length bm
unfolding bit_clear
length-bit_clear bm i = length-set bm (i / 8) _

pub bit_set-IsBytes : (bm : List ℕ) (i : ℕ) → IsBytes bm → IsBytes (bit_set bm i)
unfolding bit_set
bit_set-IsBytes bm i bs = set-IsBytes bm (i / 8) _ (omega arith) bs

pub bit_clear-IsBytes : (bm : List ℕ) (i : ℕ) → IsBytes bm → IsBytes (bit_clear bm i)
unfolding bit_clear
bit_clear-IsBytes bm i bs = set-IsBytes bm (i / 8) _ (omega arith) bs
