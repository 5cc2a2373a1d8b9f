-- ===== src/Ext2/Bytes/Laws.antt =====
-- project3: what `memcpy` into and out of a block does, and the round trip of an array of words.
use mathlib.Core.Path.{ap₂}
use xjtu_os_project.Prelude.{
  ℕ, zero, suc, ◌+◌, ◌-◌, ◌*◌, ◌^◌, ◌<◌, ◌≤◌, ◌≡◌, refl, ap, sym, ◌∙◌, ◌⊎◌, inl, inr, List, [], ◌∷◌,
  ◌++◌, arith, take, drop, length, All, replicate, length-append, length-take, length-drop,
}
use xjtu_os_project.Ext2.Bytes.{IsBytes, slice, splice, words_bytes, words_at}

pub take-append : {A : Type 0} (xs ys : List A) → take (length xs) (xs ++ ys) ≡ xs
take-append [] ys = refl
take-append (x ∷ xs) ys = ap (◌∷◌ x) (take-append xs ys)

pub drop-append : {A : Type 0} (xs ys : List A) → drop (length xs) (xs ++ ys) ≡ ys
drop-append [] ys = refl
drop-append (x ∷ xs) ys = drop-append xs ys

drop-splice : {A : Type 0} (n : ℕ) (xs ys : List A) → n ≤ length xs → drop n (take n xs ++ ys) ≡ ys
drop-splice zero xs ys h = refl
drop-splice (suc n) [] ys h = absurd (omega arith)
drop-splice (suc n) (x ∷ xs) ys h = drop-splice n xs ys (omega arith)

-- Reading what was copied in.
pub slice-splice :
    (off : ℕ) (src buf : List ℕ)
    → off ≤ length buf
    → slice off (length src) (splice off src buf) ≡ src
unfolding slice splice
slice-splice off src buf h =
    rw (drop-splice off buf (src ++ drop (off + length src) buf) h)
      (take-append src (drop (off + length src) buf))

take-take-append :
    {A : Type 0} (n m : ℕ) (xs ys : List A)
    → n ≤ m
    → m ≤ length xs
    → take n (take m xs ++ ys) ≡ take n xs
take-take-append zero m xs ys h k = refl
take-take-append (suc n) zero xs ys h k = absurd (omega arith)
take-take-append (suc n) (suc m) [] ys h k = absurd (omega arith)
take-take-append (suc n) (suc m) (x ∷ xs) ys h k =
    ap (◌∷◌ x) (take-take-append n m xs ys (omega arith) (omega arith))

slice_front :
    (a n m : ℕ) (xs ys : List ℕ)
    → a + n ≤ m
    → m ≤ length xs
    → take n (drop a (take m xs ++ ys)) ≡ take n (drop a xs)
slice_front zero n m xs ys h k = take-take-append n m xs ys (omega arith) k
slice_front (suc a) n zero xs ys h k = absurd (omega arith)
slice_front (suc a) n (suc m) [] ys h k = absurd (omega arith)
slice_front (suc a) n (suc m) (x ∷ xs) ys h k = slice_front a n m xs ys (omega arith) (omega arith)

drop_past :
    {A : Type 0} (n : ℕ) (xs ys : List A)
    → length xs ≤ n
    → drop n (xs ++ ys) ≡ drop (n - length xs) ys
drop_past n [] ys h = ap (λ k. drop k ys) {x = n} {y = n - 0} (omega arith)
drop_past zero (x ∷ xs) ys h = absurd (omega arith)
drop_past (suc n) (x ∷ xs) ys h =
    drop_past n xs ys (omega arith)
    ∙ ap (λ k. drop k ys) {x = n - length xs} {y = suc n - suc (length xs)} (omega arith)

drop-nil : {A : Type 0} (n : ℕ) → drop {A = A} n [] ≡ []
drop-nil zero = refl
drop-nil (suc n) = refl

drop-drop : {A : Type 0} (m n k : ℕ) (xs : List A) → k ≡ n + m → drop m (drop n xs) ≡ drop k xs
drop-drop m zero k xs e = ap (λ j. drop j xs) {x = m} {y = k} (omega arith)
drop-drop m (suc n) k [] e = drop-nil m ∙ sym (drop-nil k)
drop-drop m (suc n) zero (x ∷ xs) e = absurd (omega arith)
drop-drop m (suc n) (suc k) (x ∷ xs) e = drop-drop m n k xs (omega arith)

drop_past_splice :
    (a off k : ℕ) (src buf : List ℕ)
    → k ≡ off + length src
    → k ≤ a
    → k ≤ length buf
    → drop a (take off buf ++ (src ++ drop k buf)) ≡ drop a buf
drop_past_splice a zero k src buf e h l =
    drop_past a src (drop k buf) (omega arith) ∙ drop-drop (a - length src) k a buf (omega arith)
drop_past_splice a (suc off) k src [] e h l = absurd (omega arith)
drop_past_splice zero (suc off) k src (x ∷ buf) e h l = absurd (omega arith)
drop_past_splice (suc a) (suc off) zero src (x ∷ buf) e h l = absurd (omega arith)
drop_past_splice (suc a) (suc off) (suc k) src (x ∷ buf) e h l =
    drop_past_splice a off k src buf (omega arith) (omega arith) (omega arith)

-- Reading elsewhere.
pub slice-splice_ne :
    (a n off : ℕ) (src buf : List ℕ)
    → off + length src ≤ length buf
    → (a + n ≤ off) ⊎ (off + length src ≤ a)
    → slice a n (splice off src buf) ≡ slice a n buf
unfolding slice splice
slice-splice_ne a n off src buf h (inl front) =
    slice_front a n off buf (src ++ drop (off + length src) buf) front (omega arith)
slice-splice_ne a n off src buf h (inr past) =
    ap (take n) (drop_past_splice a off (off + length src) src buf refl past h)

pub length-splice :
    (off : ℕ) (src buf : List ℕ)
    → off + length src ≤ length buf
    → length (splice off src buf) ≡ length buf
unfolding splice
length-splice off src buf h = omega (
  arith,
  length-append (take off buf) (src ++ drop (off + length src) buf),
  length-append src (drop (off + length src) buf),
  length-take off buf,
  length-drop (off + length src) buf,
)

pub length-words_bytes : (ws : List ℕ) → length (words_bytes ws) ≡ 4 * length ws
unfolding words_bytes
length-words_bytes [] = refl
length-words_bytes (w ∷ ws) = omega (arith, length-words_bytes ws)

-- Words that fit into 32 bits come back from their bytes.
pub words_at-words_bytes :
    (ws rest : List ℕ)
    → All (λ w. w < 2 ^ 32) ws
    → words_at (length ws) (words_bytes ws ++ rest) ≡ ws
unfolding words_at words_bytes
words_at-words_bytes [] rest h = refl
words_at-words_bytes (w ∷ ws) rest h = ap₂ ◌∷◌ (omega arith) (words_at-words_bytes ws rest h.1)

pub append-IsBytes : (xs ys : List ℕ) → IsBytes xs → IsBytes ys → IsBytes (xs ++ ys)
append-IsBytes [] ys hx hy = hy
append-IsBytes (x ∷ xs) ys hx hy = (hx.0, append-IsBytes xs ys hx.1 hy)

pub take-IsBytes : (n : ℕ) (xs : List ℕ) → IsBytes xs → IsBytes (take n xs)
take-IsBytes zero xs h = tt
take-IsBytes (suc n) [] h = tt
take-IsBytes (suc n) (x ∷ xs) h = (h.0, take-IsBytes n xs h.1)

pub drop-IsBytes : (n : ℕ) (xs : List ℕ) → IsBytes xs → IsBytes (drop n xs)
drop-IsBytes zero xs h = h
drop-IsBytes (suc n) [] h = tt
drop-IsBytes (suc n) (x ∷ xs) h = drop-IsBytes n xs h.1

pub splice-IsBytes :
    (off : ℕ) (src buf : List ℕ) → IsBytes src → IsBytes buf → IsBytes (splice off src buf)
unfolding splice
splice-IsBytes off src buf hs hb =
    append-IsBytes (take off buf) (src ++ drop (off + length src) buf) (take-IsBytes off buf hb)
      (append-IsBytes src (drop (off + length src) buf) hs (drop-IsBytes (off + length src) buf hb))

pub words_bytes-IsBytes : (ws : List ℕ) → IsBytes (words_bytes ws)
unfolding words_bytes
words_bytes-IsBytes [] = tt
words_bytes-IsBytes (w ∷ ws) =
    (omega arith, (omega arith, (omega arith, (omega arith, words_bytes-IsBytes ws))))

pub replicate-IsBytes : (n : ℕ) → IsBytes (replicate n 0)
replicate-IsBytes zero = tt
replicate-IsBytes (suc n) = (omega arith, replicate-IsBytes n)
