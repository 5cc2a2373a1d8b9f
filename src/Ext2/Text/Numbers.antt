-- ===== src/Ext2/Text/Numbers.antt =====
-- project3: a printed `int` is read back.
use xjtu_os_project.Prelude.{
  ℕ, zero, suc, ◌+◌, ◌-◌, ◌*◌, ◌/◌, ◌%◌, ◌<◌, ◌≤◌, ◌≡◌, refl, ap, sym, ◌∙◌, List, [], ◌∷◌, ◌++◌,
  some, false, Bool-cases, inl, inr, arith, ltb, ℤ, pos, negsuc, above_zero, below_zero,
}
use mathlib.Core.List.{append_assoc}
use xjtu_os_project.Ext2.Text.{is_digit, digits_value, digits, show_int, atoi}

-- 10 to the `n`.
abbrev pub ten_to : ℕ → ℕ
ten_to zero = 1
ten_to (suc n) = 10 * ten_to n

-- What stands behind a number does not go on with a digit.
abbrev pub StopsDigits : List ℕ → Type 0
StopsDigits [] = Unit
StopsDigits (c ∷ s) = is_digit c ≡ false

start : (n : ℕ) (s : List ℕ) → digits_value (0 + (48 + n - 48)) s ≡ digits_value n s
start n s = ap (λ k. digits_value k s) (omega arith)

same_value :
    (n : ℕ) (s : List ℕ) → digits_value (n / 10 * 10 + (48 + n % 10 - 48)) s ≡ digits_value n s
same_value n s = ap (λ k. digits_value k s) (omega arith)

next_digit : (n : ℕ) (s : List ℕ) → digits_value (n / 10) ((48 + n % 10) ∷ s) ≡ digits_value n s
unfolding digits_value
next_digit n s = ground (arith, same_value n s)

-- The digits of `n` in front of `s`, read from 0 on.
digits_value-digits :
    (fuel n : ℕ) (s : List ℕ)
    → n < ten_to fuel
    → digits_value 0 (digits fuel n ++ s) ≡ digits_value n s
unfolding digits_value digits
digits_value-digits zero n s h = ap (λ k. digits_value k s) (omega arith)
digits_value-digits (suc fuel) n s h = elim (Bool-cases (ltb n 10)) [
  | inl e ↦ rw e (ground (arith, start n s))
  | inr e ↦
      rw (e, append_assoc)
        (digits_value-digits fuel (n / 10) ((48 + n % 10) ∷ s) (omega arith) ∙ next_digit n s)
]

digits_value-stop : (n : ℕ) (s : List ℕ) → StopsDigits s → digits_value n s ≡ n
unfolding digits_value
digits_value-stop n [] h = refl
digits_value-stop n (c ∷ s) h = rw h refl

digits-cons :
    (fuel n : ℕ)
    → n < ten_to (suc fuel)
    → (c : ℕ) × (cs : List ℕ) × (digits (suc fuel) n ≡ c ∷ cs) × (48 ≤ c) × (c ≤ 57)
unfolding digits
digits-cons zero n h = elim (Bool-cases (ltb n 10)) [
  | inl e ↦ (48 + n, [], rw e refl, omega arith, ground arith)
  | inr e ↦ absurd (ground arith)
]
digits-cons (suc fuel) n h = elim (Bool-cases (ltb n 10)) [
  | inl e ↦ (48 + n, [], rw e refl, omega arith, ground arith)
  | inr e ↦
      let (c, cs, eq, lo, hi) = digits-cons fuel (n / 10) (omega arith) in
      (c, cs ++ (48 + n % 10) ∷ [], rw e (ap (λ ds. ds ++ (48 + n % 10) ∷ []) eq), lo, hi)
]

-- `atoi` at a number that is written with digits.
atoi-digits :
    (n : ℕ) (s : List ℕ) → n < 2147483648 → StopsDigits s → atoi (digits 10 n ++ s) ≡ some (pos n)
unfolding atoi
atoi-digits n s h stop =
    let (c, cs, eq, lo, hi) = digits-cons 9 n (omega arith) in
    let value : digits_value 0 (c ∷ (cs ++ s)) ≡ n =
      ap (λ ds. digits_value 0 (ds ++ s)) (sym eq)
      ∙ (digits_value-digits 10 n s (omega arith) ∙ digits_value-stop n s stop) in
    rw eq (ground (arith, value))

-- A printed `int` is read back by `atoi`, whatever stands behind it, unless that is a digit.
pub atoi-show_int :
    (z : ℤ) (s : List ℕ)
    → below_zero z ≤ 2147483648
    → above_zero z < 2147483648
    → StopsDigits s
    → atoi (show_int z ++ s) ≡ some z
unfolding atoi show_int
atoi-show_int (pos n) s lo hi stop = atoi-digits n s hi stop
atoi-show_int (negsuc n) s lo hi stop =
    let value : digits_value 0 (digits 10 (suc n) ++ s) ≡ suc n =
      digits_value-digits 10 (suc n) s (omega arith) ∙ digits_value-stop (suc n) s stop in
    rw value (ground arith)
