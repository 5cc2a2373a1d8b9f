-- ===== src/Ext2/Bytes/Words.antt =====
-- project3: an array of `uint32_t` that fills a block, as the table of an indirect block does.
use mathlib.Core.List.{append-nil}
use xjtu_os_project.Prelude.{
  ℕ, zero, suc, ◌+◌, ◌^◌, ◌<◌, ◌≡◌, refl, ap, sym, ◌∙◌, List, [], ◌∷◌, arith, drop, length, All,
  get_or, set, replicate,
}
use xjtu_os_project.Ext2.Bytes.{IsBytes, words_bytes, words_at}
use xjtu_os_project.Ext2.Bytes.Laws.{words_at-words_bytes, drop-IsBytes}

pub length-words_at : (n : ℕ) (bs : List ℕ) → length (words_at n bs) ≡ n
unfolding words_at
length-words_at zero bs = refl
length-words_at (suc n) bs = ap suc (length-words_at n (drop 4 bs))

abbrev pub IsWords : List ℕ → Type 0
IsWords = All (λ w. w < 2 ^ 32)

get_or-bound : (bs : List ℕ) (j : ℕ) → IsBytes bs → get_or bs j 0 < 256
get_or-bound [] j h = omega arith
get_or-bound (b ∷ bs) zero h = h.0
get_or-bound (b ∷ bs) (suc j) h = get_or-bound bs j h.1

pub words_at-IsWords : (n : ℕ) (bs : List ℕ) → IsBytes bs → IsWords (words_at n bs)
unfolding words_at
words_at-IsWords zero bs h = tt
words_at-IsWords (suc n) bs h = (
  omega (arith, get_or-bound bs 0 h, get_or-bound bs 1 h, get_or-bound bs 2 h, get_or-bound bs 3 h),
  words_at-IsWords n (drop 4 bs) (drop-IsBytes 4 bs h),
)

pub set-IsWords : (ws : List ℕ) (k v : ℕ) → v < 2 ^ 32 → IsWords ws → IsWords (set ws k v)
set-IsWords [] k v h bs = tt
set-IsWords (w ∷ ws) zero v h bs = (h, bs.1)
set-IsWords (w ∷ ws) (suc k) v h bs = (bs.0, set-IsWords ws k v h bs.1)

-- The words of a block come back from it.
pub words_back :
    (n : ℕ) (ws : List ℕ) → length ws ≡ n → IsWords ws → words_at n (words_bytes ws) ≡ ws
words_back n ws e h =
    rw (sym e)
      (ap (words_at (length ws)) (sym (append-nil (words_bytes ws))) ∙ words_at-words_bytes ws [] h)

suc_add : (n j : ℕ) → suc (n + j) ≡ suc n + j
suc_add n j = omega arith

get_or-drop : (n : ℕ) (bs : List ℕ) (j : ℕ) → get_or (drop n bs) j 0 ≡ get_or bs (n + j) 0
get_or-drop zero bs j = ap (λ k. get_or bs k 0) (omega arith)
get_or-drop (suc n) [] j = refl
get_or-drop (suc n) (b ∷ bs) j = get_or-drop n bs j ∙ ap (λ k. get_or (b ∷ bs) k 0) (suc_add n j)

-- A block of zeros holds no word but 0.
pub words_zero :
    (n k : ℕ) (bs : List ℕ) → ((j : ℕ) → get_or bs j 0 ≡ 0) → get_or (words_at n bs) k 0 ≡ 0
unfolding words_at
words_zero zero k bs h = refl
words_zero (suc n) zero bs h = omega (arith, h 0, h 1, h 2, h 3)
words_zero (suc n) (suc k) bs h = words_zero n k (drop 4 bs) (λ j. get_or-drop 4 bs j ∙ h (4 + j))

pub get_or-replicate : (n j : ℕ) → get_or {A = ℕ} (replicate n 0) j 0 ≡ 0
get_or-replicate zero j = refl
get_or-replicate (suc n) zero = refl
get_or-replicate (suc n) (suc j) = get_or-replicate n j
