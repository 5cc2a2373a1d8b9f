-- ===== src/Ext2/Text.antt =====
-- project3: the parts of the C library on strings that src/security.c and src/cli.c use. A C string is
-- the list of its bytes in front of the zero byte that ends it.
pub mod Numbers
use Prim.Native.Char.{code}
use Prim.Native.String.{String}
use mathlib.Core.Option
use xjtu_os_project.Prelude.{
  ℕ, zero, suc, ◌+◌, ◌-◌, ◌*◌, ◌/◌, ◌%◌, ◌^◌, ◌≤◌, Bool, true, false, ◌&&◌, ◌||◌, List, [], ◌∷◌,
  ◌++◌, Option, none, some, if◌then◌else◌, ltb, leb, ◌==◌, ℤ, pos, negsuc,
}

-- The bytes of a literal.
abbrev pub codes : String → List ℕ
codes String.[] = []
codes (String.◌∷◌ c s) = code c ∷ codes s

abbrev pub in_front_of : ℕ → List ℕ × List ℕ → List ℕ × List ℕ
in_front_of c (before, behind) = (c ∷ before, behind)

-- `strchr(s, c)`: what stands in front of the first `c`, and what stands behind it.
unfoldable pub strchr : ℕ → List ℕ → Option (List ℕ × List ℕ)
strchr c [] = none
strchr c (x ∷ s) = if x == c then some ([], s) else Option.map (in_front_of x) (strchr c s)

-- The bytes up to the first `c`, or all.
unfoldable pub up_to : ℕ → List ℕ → List ℕ
up_to c [] = []
up_to c (x ∷ s) = if x == c then [] else x ∷ up_to c s

-- `strcmp(a, b) == 0`
unfoldable pub strcmp_eq : List ℕ → List ℕ → Bool
strcmp_eq [] [] = true
strcmp_eq [] (y ∷ b) = false
strcmp_eq (x ∷ a) [] = false
strcmp_eq (x ∷ a) (y ∷ b) = x == y && strcmp_eq a b

-- What stands behind `word`, where `s` starts with it.
unfoldable pub behind_word : List ℕ → List ℕ → Option (List ℕ)
behind_word [] s = some s
behind_word (c ∷ word) [] = none
behind_word (c ∷ word) (x ∷ s) = if c == x then behind_word word s else none

abbrev pub or_later : Option (List ℕ) → Option (List ℕ) → Option (List ℕ)
or_later (some s) later = some s
or_later none later = later

-- `strstr(s, word)`, moved on behind the word.
unfoldable pub strstr : List ℕ → List ℕ → Option (List ℕ)
unfolding behind_word
strstr word [] = behind_word word []
strstr word (x ∷ s) = or_later (behind_word word (x ∷ s)) (strstr word s)

abbrev pub is_digit : ℕ → Bool
is_digit c = leb 48 c && leb c 57

-- `isspace`
abbrev pub is_space : ℕ → Bool
is_space c = c == 32 || (leb 9 c && leb c 13)

-- The value of the digits that `s` starts with, behind digits of value `acc`.
unfoldable pub digits_value : ℕ → List ℕ → ℕ
digits_value acc [] = acc
digits_value acc (c ∷ s) =
    let rest = digits_value (acc * 10 + (c - 48)) s in if is_digit c then rest else acc

-- An `int`, or none where it is out of range.
abbrev pub int_pos : ℕ → Option ℤ
int_pos n = if ltb n 2147483648 then some (pos n) else none

abbrev pub int_neg : ℕ → Option ℤ
int_neg zero = some (pos zero)
int_neg (suc n) = if ltb n 2147483648 then some (negsuc n) else none

-- `atoi`, which is undefined where the number is no `int`.
unfoldable pub atoi : List ℕ → Option ℤ
unfolding digits_value
atoi [] = some (pos 0)
atoi (c ∷ s) =
    let skip = atoi s in
    if is_space c
    then skip
    else if c == b'-'
    then int_neg (digits_value 0 s)
    else if c == b'+'
    then int_pos (digits_value 0 s)
    else int_pos (digits_value 0 (c ∷ s))

-- The decimal digits of a number below 10 to the `fuel`.
unfoldable pub digits : ℕ → ℕ → List ℕ
digits zero n = []
digits (suc fuel) n =
    let front = digits fuel (n / 10) in
    if ltb n 10 then (48 + n) ∷ [] else front ++ (48 + n % 10) ∷ []

-- `%d` of an `int`, which has at most ten digits.
unfoldable pub show_int : ℤ → List ℕ
unfolding digits
show_int (pos n) = digits 10 n
show_int (negsuc n) = b'-' ∷ digits 10 (suc n)

-- An `int` as its 32 bits.
abbrev pub int_bits : ℤ → ℕ
int_bits (pos n) = n % 2 ^ 32
int_bits (negsuc n) = 2 ^ 32 - 1 - n % 2 ^ 32
