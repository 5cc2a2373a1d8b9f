-- ===== src/Ext2/Bitmap/Scan.antt =====
-- project3/src/bitmap.c: the loop of `alloc_block` and `alloc_inode` over a bitmap of 512 bytes.
use xjtu_os_project.Prelude.{
  ℕ, zero, suc, ◌+◌, ◌<◌, ◌≤◌, ◌≡◌, ◌≢◌, refl, ◌⊎◌, inl, inr, List, Option, none, some, arith, ◌==◌,
  Bool-cases,
}
use xjtu_os_project.Ext2.Bitmap.{bit_at, bitop_test, scan}

-- Every bit from `i` up to but not including `j` is set.
abbrev pub IsFull : List ℕ → ℕ → ℕ → Type 0
IsFull bm i j = (k : ℕ) → i ≤ k → k < j → bit_at bm k ≢ 0

-- `none` where the loop leaves the bitmap, which ends at bit 4096, with all bits behind it set;
-- `some none` where all `n` bits are set and in the bitmap; and otherwise the first bit that is
-- clear.
abbrev pub ScanResult : List ℕ → ℕ → ℕ → Option (Option ℕ) → Type 0
ScanResult bm i n none = (4096 < i + n) × IsFull bm i 4096
ScanResult bm i n (some none) = IsFull bm i (i + n) × ((n ≡ 0) ⊎ (i + n ≤ 4096))
ScanResult bm i n (some (some k)) =
    (i ≤ k) × (k < i + n) × (k < 4096) × (bit_at bm k ≡ 0) × IsFull bm i k

IsFull-cons : (bm : List ℕ) (i j : ℕ) → bit_at bm i ≢ 0 → IsFull bm (i + 1) j → IsFull bm i j
IsFull-cons bm i j here rest k h l = elim (Bool-cases (k == i)) [
  | inl e ↦ let same : k ≡ i = ground arith in rw same here
  | inr e ↦ rest k (ground arith) l
]

ScanResult-next :
    (bm : List ℕ) (i n : ℕ) (r : Option (Option ℕ))
    → i < 4096
    → bit_at bm i ≢ 0
    → ScanResult bm (i + 1) n r
    → ScanResult bm i (suc n) r
ScanResult-next bm i n none lt here (far, full) = (omega arith, IsFull-cons bm i 4096 here full)
ScanResult-next bm i n (some none) lt here (full, room) =
    (IsFull-cons bm i (i + suc n) here (λ k h l. full k h (omega arith)), inr (omega arith))
ScanResult-next bm i n (some (some k)) lt here (lo, hi, inside, clear, full) =
    (omega arith, omega arith, inside, clear, IsFull-cons bm i k here full)

bitop_test_cases :
    (bm : List ℕ) (i : ℕ)
    → ((4096 ≤ i) × (bitop_test bm i ≡ none))
      ⊎ ((i < 4096) × (bitop_test bm i ≡ some (bit_at bm i)))
unfolding bitop_test
bitop_test_cases bm i = ground arith

-- What the loop finds, at any number of bits and any start.
pub scan-ScanResult : (n i : ℕ) (bm : List ℕ) → ScanResult bm i n (scan n i bm)
unfolding scan
scan-ScanResult zero i bm = (λ k h l. absurd (omega arith), inl refl)
scan-ScanResult (suc n) i bm = elim (bitop_test_cases bm i) [
  | inl (out, e) ↦ rw (e, scan) (omega arith, λ k h l. absurd (omega arith))
  | inr (inside, e) ↦ elim (Bool-cases (bit_at bm i == 0)) [
    | inl clear ↦
        rw (e, clear, scan)
          (omega arith, omega arith, inside, ground arith, λ k h l. absurd (omega arith))
    | inr used ↦
        rw (e, used, scan)
          (ScanResult-next bm i n (scan n (i + 1) bm) inside (ground arith)
            (scan-ScanResult n (i + 1) bm))
  ]
]
