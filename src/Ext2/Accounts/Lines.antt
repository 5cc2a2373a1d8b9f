-- ===== src/Ext2/Accounts/Lines.antt =====
-- project3/src/security.c: a line of /.users that the program has printed is read back, and so is the
-- session file.
use mathlib.Core.List.{append-nil}
use xjtu_os_project.Prelude.{
  ℕ, zero, suc, ◌+◌, ◌/◌, ◌%◌, ◌<◌, ◌≤◌, ◌≡◌, ◌≢◌, ◌⊎◌, refl, ap, sym, ◌∙◌, Bool-cases, inl, inr,
  List, [], ◌∷◌, ◌++◌, some, arith, ltb, take, length, length-append, All, ℤ, pos, negsuc,
  above_zero, below_zero,
}
use xjtu_os_project.Ext2.Text.{strchr, up_to, digits, show_int, atoi, codes, behind_word, strstr}
use xjtu_os_project.Ext2.Text.Numbers.{atoi-show_int}
use xjtu_os_project.Ext2.Accounts.{
  max_user_len, newline, Account, parse_fields, split_name, split_pass, parse_line, session_line,
  uid_or_zero, user_or_none, session_of, parse_session, line_at,
}

-- None of the bytes is `c`.
abbrev pub Lacks : ℕ → List ℕ → Type 0
Lacks c s = All (λ b. b ≢ c) s

-- A name or a password that a line of /.users can hold: at most 15 bytes, with no colon, no newline and
-- no zero byte.
pub record IsWord (s : List ℕ) : Type 0 where
  pub short : length s < max_user_len
  pub no_colon : Lacks b':' s
  pub no_newline : Lacks newline s
  pub no_zero : Lacks 0 s

-- An account that a line of /.users can hold.
pub record IsAccount (a : Account) : Type 0 where
  pub name : IsWord a.name
  pub pass : IsWord a.pass
  pub low : below_zero a.uid ≤ 2147483648
  pub high : above_zero a.uid < 2147483648

-- The line of an account, without the newline.
abbrev pub account_line : Account → List ℕ
account_line a = a.name ++ (b':' ∷ (a.pass ++ (b':' ∷ show_int a.uid)))

pub Lacks-append : (c : ℕ) (s t : List ℕ) → Lacks c s → Lacks c t → Lacks c (s ++ t)
Lacks-append c [] t h k = k
Lacks-append c (b ∷ s) t h k = (h.0, Lacks-append c s t h.1 k)

pub strchr-append :
    (c : ℕ) (s rest : List ℕ) → Lacks c s → strchr c (s ++ c ∷ rest) ≡ some (s, rest)
unfolding strchr
strchr-append c [] rest h = ground arith
strchr-append c (b ∷ s) rest h = rw (strchr-append c s rest h.1) (ground (arith, h.0))

pub up_to-append : (c : ℕ) (s rest : List ℕ) → Lacks c s → up_to c (s ++ c ∷ rest) ≡ s
unfolding up_to
up_to-append c [] rest h = ground arith
up_to-append c (b ∷ s) rest h = rw (up_to-append c s rest h.1) (ground (arith, h.0))

pub up_to-Lacks : (c : ℕ) (s : List ℕ) → Lacks c s → up_to c s ≡ s
unfolding up_to
up_to-Lacks c [] h = refl
up_to-Lacks c (b ∷ s) h = rw (up_to-Lacks c s h.1) (ground (arith, h.0))

-- The digits of a number are bytes from 48 to 57.
digits-Lacks : (c fuel n : ℕ) → (c < 48) ⊎ (57 < c) → Lacks c (digits fuel n)
unfolding digits
digits-Lacks c zero n h = tt
digits-Lacks c (suc fuel) n h = elim (Bool-cases (ltb n 10)) [
  | inl e ↦ rw e (ground arith, tt)
  | inr e ↦ rw e (
      Lacks-append c (digits fuel (n / 10)) ((48 + n % 10) ∷ []) (digits-Lacks c fuel (n / 10) h)
        (omega arith, tt))
]

length-digits : (fuel n : ℕ) → length (digits fuel n) ≤ fuel
unfolding digits
length-digits zero n = omega arith
length-digits (suc fuel) n = elim (Bool-cases (ltb n 10)) [
  | inl e ↦ rw e (omega arith)
  | inr e ↦ rw e (
      omega (
        arith,
        length-append (digits fuel (n / 10)) ((48 + n % 10) ∷ []),
        length-digits fuel (n / 10),
      ))
]

-- A printed number has bytes from 48 to 57, and 45 for the sign.
pub show_int-Lacks : (c : ℕ) (z : ℤ) → (c < 48) ⊎ (57 < c) → c ≢ b'-' → Lacks c (show_int z)
unfolding show_int
show_int-Lacks c (pos n) h ne = digits-Lacks c 10 n h
show_int-Lacks c (negsuc n) h ne = ((λ e. ne (sym e)), digits-Lacks c 10 (suc n) h)

pub length-show_int : (z : ℤ) → length (show_int z) ≤ 11
unfolding show_int
length-show_int (pos n) = omega (arith, length-digits 10 n)
length-show_int (negsuc n) = omega (arith, length-digits 10 (suc n))

-- An `int` of either sign is read back when nothing stands behind it.
atoi-all :
    (z : ℤ) → below_zero z ≤ 2147483648 → above_zero z < 2147483648 → atoi (show_int z) ≡ some z
atoi-all z lo hi = ap atoi (sym (append-nil (show_int z))) ∙ atoi-show_int z [] lo hi tt

pub take_short : (k : ℕ) (s : List ℕ) → length s ≤ k → take k s ≡ s
take_short zero [] h = refl
take_short zero (b ∷ s) h = absurd (omega arith)
take_short (suc k) [] h = refl
take_short (suc k) (b ∷ s) h = ap (◌∷◌ b) (take_short k s (omega arith))

pub length-account_line : (a : Account) → IsAccount a → length (account_line a) < 48
length-account_line a v = omega (
  arith,
  length-append a.name (b':' ∷ (a.pass ++ (b':' ∷ show_int a.uid))),
  length-append a.pass (b':' ∷ show_int a.uid),
  v.name.short,
  v.pass.short,
  length-show_int a.uid,
)

-- The fields of an account are in the bounds that the code tests.
fields-account :
    (a : Account) → IsAccount a → parse_fields a.name a.pass (show_int a.uid) ≡ some (some a)
unfolding parse_fields
fields-account a v =
    let number = atoi-all a.uid v.low v.high in
    ground (arith, v.name.short, v.pass.short, length-show_int a.uid, number)

parse_line-strchr :
    (line name rest pass number : List ℕ)
    → strchr b':' line ≡ some (name, rest)
    → strchr b':' rest ≡ some (pass, number)
    → parse_line line ≡ parse_fields name pass (up_to newline number)
unfolding parse_line
parse_line-strchr line name rest pass number h k = ap split_name h ∙ ap (split_pass name) k

-- The line that `users_add` and `users_change_password` print for an account is parsed back into it,
-- if its name and its password have at most 15 bytes and neither holds a colon, a newline or a zero.
pub parse_line-account_line :
    (a : Account) → IsAccount a → parse_line (line_at (account_line a)) ≡ some (some a)
parse_line-account_line a v =
    ap parse_line (take_short 255 (account_line a) (omega (arith, length-account_line a v)))
    ∙ parse_line-strchr (account_line a) a.name (a.pass ++ (b':' ∷ show_int a.uid)) a.pass
        (show_int a.uid)
        (strchr-append b':' a.name (a.pass ++ (b':' ∷ show_int a.uid)) v.name.no_colon)
        (strchr-append b':' a.pass (show_int a.uid) v.pass.no_colon)
    ∙ ap (parse_fields a.name a.pass) (
        up_to-Lacks newline (show_int a.uid)
          (show_int-Lacks newline a.uid (inl (omega arith)) (omega arith)))
    ∙ fields-account a v

-- Bytes other than the first of the word are passed over.
strstr-append :
    (c : ℕ) (word s rest : List ℕ)
    → Lacks c s
    → strstr (c ∷ word) (s ++ rest) ≡ strstr (c ∷ word) rest
unfolding strstr behind_word
strstr-append c word [] rest h = refl
strstr-append c word (b ∷ s) rest h = ground (arith, h.0, strstr-append c word s rest h.1)

parse_session-strstr :
    (buf a b : List ℕ) (uid : ℤ)
    → strstr (codes "uid:") buf ≡ some a
    → strstr (codes "user:") buf ≡ some b
    → atoi a ≡ some uid
    → parse_session buf ≡ some (uid, user_or_none (some b))
unfolding parse_session
parse_session-strstr buf a b uid h k e =
    ap (λ x. session_of (uid_or_zero x) (user_or_none (strstr (codes "user:") buf))) h
    ∙ ap (λ x. session_of x (user_or_none (strstr (codes "user:") buf))) e
    ∙ ap (λ x. session_of (some uid) (user_or_none x)) k

-- What the line of the user starts with.
abbrev user_line : List ℕ → List ℕ
user_line user = newline ∷ (codes "user:" ++ (user ++ newline ∷ []))

uid_found :
    (uid : ℤ) (user : List ℕ)
    → strstr (codes "uid:") (session_line uid user) ≡ some (show_int uid ++ user_line user)
unfolding session_line strstr behind_word
uid_found uid user = refl

user_found :
    (uid : ℤ) (user : List ℕ)
    → strstr (codes "user:") (session_line uid user) ≡ some (user ++ newline ∷ [])
unfolding session_line strstr behind_word
user_found uid user =
    strstr-append b'u' (codes "ser:") (show_int uid) (user_line user)
      (show_int-Lacks b'u' uid (inr (omega arith)) (omega arith))

-- The number and the name are found again in the session text of both, if the name has at most 15 bytes
-- and no newline.
pub parse_session-session_line :
    (uid : ℤ) (user : List ℕ)
    → below_zero uid ≤ 2147483648
    → above_zero uid < 2147483648
    → length user < max_user_len
    → Lacks newline user
    → parse_session (session_line uid user) ≡ some (uid, user)
parse_session-session_line uid user lo hi short plain =
    parse_session-strstr (session_line uid user) (show_int uid ++ user_line user)
      (user ++ newline ∷ []) uid (uid_found uid user) (user_found uid user)
      (atoi-show_int uid (user_line user) lo hi refl)
    ∙ ap (λ u. some (uid, take 15 u)) (up_to-append newline user [] plain)
    ∙ ap (λ u. some (uid, u)) (take_short 15 user (omega (arith, short)))
