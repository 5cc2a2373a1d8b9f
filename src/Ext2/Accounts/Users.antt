-- ===== src/Ext2/Accounts/Users.antt =====
-- project3/src/security.c: the text of /.users as a table of accounts, with a password and a number for
-- a name. The theorems are about texts with a zero byte behind them in memory, of tables in which every
-- line can be read back and no two accounts have one name.
use mathlib.Core.List.{append-nil, append_assoc}
use xjtu_os_project.Prelude.{
  ℕ, ◌+◌, ◌<◌, ◌≤◌, ◌≡◌, refl, ap, sym, ◌∙◌, true, false, Bool-cases, inl, inr, List, [], ◌∷◌, ◌++◌,
  Option, none, some, arith, if◌then◌else◌, take, All, ℤ, pos, negsuc, above_zero, below_zero,
  ltb_ℤ,
}
use xjtu_os_project.Ext2.Text.{strcmp_eq}
use xjtu_os_project.Ext2.Accounts.{
  Account, show_account, lines_of, larger, next_uid, find_account, max_account, new_lines,
}
use xjtu_os_project.Ext2.Accounts.Lines.{IsWord, IsAccount, take_short}
use xjtu_os_project.Ext2.Accounts.Table.{
  render, lookup, IsTable, max_uid_of, with_pass, change_pass, strcmp_eq_lem, strcmp_eq_refl,
  lines_of-render, login, find_account-login, known_or, max_account-known_or, concat, shown,
  new_lines-shown, with_pass-IsAccount, length-show_account,
}

-- The account of the table, or the new one.
abbrev pub or_new : Option Account → Option Account → Option Account
or_new (some a) new = some a
or_new none new = new

abbrev pub if_named : List ℕ → Account → Option Account
if_named name a = if strcmp_eq a.name name then some a else none

lookup-append :
    (n : List ℕ) (t : List Account) (a : Account)
    → lookup n (t ++ a ∷ []) ≡ or_new (lookup n t) (if_named n a)
lookup-append n [] a = refl
lookup-append n (b ∷ t) a = elim (Bool-cases (strcmp_eq b.name n)) [
  | inl e ↦ rw e refl
  | inr e ↦ rw e (lookup-append n t a)
]

lookup-cons :
    (n : List ℕ) (a : Account) (t : List Account)
    → lookup n (a ∷ t) ≡ none
    → (strcmp_eq a.name n ≡ false) × (lookup n t ≡ none)
lookup-cons n a t h = elim (Bool-cases (strcmp_eq a.name n)) [
  | inl e ↦ let found : lookup n (a ∷ t) ≡ some a = rw e refl in cc
  | inr e ↦ let same : lookup n (a ∷ t) ≡ lookup n t = rw e refl in (e, sym same ∙ h)
]

strcmp_eq-flip : (a b : List ℕ) → strcmp_eq a b ≡ false → strcmp_eq b a ≡ false
strcmp_eq-flip a b h = elim (Bool-cases (strcmp_eq b a)) [
  | inl e ↦
      let same : strcmp_eq a b ≡ true = ap (strcmp_eq a) (strcmp_eq_lem b a e) ∙ strcmp_eq_refl a in
      cc
  | inr e ↦ e
]

IsTable-append :
    (t : List Account) (a : Account)
    → IsTable t
    → IsAccount a
    → lookup a.name t ≡ none
    → IsTable (t ++ a ∷ [])
IsTable-append [] a v w h = (w, refl, tt)
IsTable-append (b ∷ t) a v w h =
    let (e, rest) = lookup-cons a.name b t h in
    (
      v.0,
      lookup-append b.name t a ∙ rw (v.1, strcmp_eq-flip b.name a.name e) refl,
      IsTable-append t a v.2 w rest,
    )

render-append :
    (t : List Account) (a : Account)
    → render (t ++ a ∷ []) ≡ render t ++ show_account a.name a.pass a.uid
render-append [] a = append-nil (show_account a.name a.pass a.uid)
render-append (b ∷ t) a =
    ap (λ l. show_account b.name b.pass b.uid ++ l) (render-append t a)
    ∙ sym (
        append_assoc (show_account b.name b.pass b.uid) (render t)
          (show_account a.name a.pass a.uid))

-- Both for signed integers.
abbrev pub AtMost : ℤ → ℤ → Type 0
AtMost a b = above_zero a + below_zero b ≤ above_zero b + below_zero a

abbrev pub Below : ℤ → ℤ → Type 0
Below a b = above_zero a + below_zero b < above_zero b + below_zero a

AtMost-larger : (m u : ℤ) → AtMost m (larger m u) × AtMost u (larger m u)
AtMost-larger m u = elim (Bool-cases (ltb_ℤ m u)) [
  | inl e ↦ rw e (ground arith)
  | inr e ↦ rw e (ground arith)
]

start-AtMost : (m : ℤ) (t : List Account) → AtMost m (max_uid_of m t)
start-AtMost m [] = omega arith
start-AtMost m (a ∷ t) = omega (arith, (AtMost-larger m a.uid).0, start-AtMost (larger m a.uid) t)

next_uid-Below : (m u : ℤ) → next_uid m ≡ some u → Below m u
next_uid-Below (pos n) u h = ground arith
next_uid-Below (negsuc n) u h = ground arith

-- A number above the largest one is above all.
All-Below : (m u : ℤ) (t : List Account) → Below (max_uid_of m t) u → All (λ b. Below b.uid u) t
All-Below m u [] h = tt
All-Below m u (a ∷ t) h = (
  omega (arith, (AtMost-larger m a.uid).1, start-AtMost (larger m a.uid) t, h),
  All-Below (larger m a.uid) u t h,
)

-- The account of a name when the password of one name has been changed.
abbrev pub changed : List ℕ → List ℕ → Option Account → Option Account
changed name pass none = none
changed name pass (some a) = some (with_pass name pass a)

lookup-change_pass :
    (n name pass : List ℕ) (t : List Account)
    → lookup n (change_pass name pass t) ≡ changed name pass (lookup n t)
lookup-change_pass n name pass [] = refl
lookup-change_pass n name pass (a ∷ t) = elim (Bool-cases (strcmp_eq a.name n)) [
  | inl e ↦ rw e refl
  | inr e ↦ rw e (lookup-change_pass n name pass t)
]

IsTable-change_pass :
    (name pass : List ℕ) (t : List Account)
    → IsWord pass
    → IsTable t
    → IsTable (change_pass name pass t)
IsTable-change_pass name pass [] w v = tt
IsTable-change_pass name pass (a ∷ t) w v = (
  with_pass-IsAccount name pass a w v.0,
  lookup-change_pass a.name name pass t ∙ ap (changed name pass) v.1,
  IsTable-change_pass name pass t w v.2,
)

concat-shown : (t : List Account) → concat (shown t) ≡ render t
concat-shown [] = refl
concat-shown (a ∷ t) = ap (λ l. show_account a.name a.pass a.uid ++ l) (concat-shown t)

-- Of a table of accounts in which every line can be read back and no two accounts have one name, with
-- a zero byte behind its text in memory:
-- the loop of `users_login` finds the number of the account of that name, if it
-- has that password, and else no number.
pub login_refines :
    (name pass : List ℕ) (t : List Account) (heap : List ℕ)
    → IsTable t
    → find_account name pass
        (lines_of [] (render t ++ 0 ∷ heap)).0
        (lines_of [] (render t ++ 0 ∷ heap)).1
      ≡ some (login pass (lookup name t))
login_refines name pass t heap v =
    ap (λ r. find_account name pass r.0 r.1) (lines_of-render t heap v)
    ∙ find_account-login name pass t v

-- Of a table of accounts in which every line can be read back and no two accounts have one name, with
-- a zero byte behind its text in memory:
-- the loop of `users_add` finds a name that the table has, and else the largest
-- number, from 0 on. If the new account has a name that is not in the table and can be read back, and
-- has the number behind the largest one, then the text with its line at the end is that of the table
-- with the account at the end, which is a table again, gives every name the account it had or the new
-- one, and has no number as large as the new one in front of it.
pub add_refines :
    (t : List Account) (a : Account) (heap : List ℕ)
    → IsTable t
    → IsAccount a
    → next_uid (max_uid_of (pos 0) t) ≡ some a.uid
    → lookup a.name t ≡ none
    → ((name : List ℕ)
        → max_account name
            (lines_of [] (render t ++ 0 ∷ heap)).0
            (lines_of [] (render t ++ 0 ∷ heap)).1
            (pos 0)
          ≡ some (known_or (lookup name t) (max_uid_of (pos 0) t)))
      × (render t ++ take 255 (show_account a.name a.pass a.uid) ≡ render (t ++ a ∷ []))
      × IsTable (t ++ a ∷ [])
      × ((n : List ℕ) → lookup n (t ++ a ∷ []) ≡ or_new (lookup n t) (if_named n a))
      × All (λ b. Below b.uid a.uid) t
add_refines t a heap v w next new = (
  (λ name.
      ap (λ r. max_account name r.0 r.1 (pos 0)) (lines_of-render t heap v)
      ∙ max_account-known_or name t (pos 0) v),
  ap (λ l. render t ++ l)
        (take_short 255 (show_account a.name a.pass a.uid) (omega (arith, length-show_account a w)))
      ∙ sym (render-append t a),
  IsTable-append t a v w new,
  (λ n. lookup-append n t a),
  All-Below (pos 0) a.uid t (next_uid-Below (max_uid_of (pos 0) t) a.uid next),
)

-- Of a table of accounts in which every line can be read back and no two accounts have one name, with
-- a zero byte behind its text in memory:
-- the loop of `users_change_password` writes the text of the table in which the
-- account of that name has the new password, if that has at most 15 bytes and holds no colon, newline
-- or zero. It is a table again, and every other name has the account it had.
pub change_refines :
    (name pass : List ℕ) (t : List Account) (heap : List ℕ)
    → IsTable t
    → IsWord pass
    → (new_lines name pass
          (lines_of [] (render t ++ 0 ∷ heap)).0
          (lines_of [] (render t ++ 0 ∷ heap)).1
        ≡ some (shown (change_pass name pass t)))
      × (concat (shown (change_pass name pass t)) ≡ render (change_pass name pass t))
      × IsTable (change_pass name pass t)
      × ((n : List ℕ) → lookup n (change_pass name pass t) ≡ changed name pass (lookup n t))
change_refines name pass t heap v w = (
  ap (λ r. new_lines name pass r.0 r.1) (lines_of-render t heap v)
      ∙ new_lines-shown name pass t w v,
  concat-shown (change_pass name pass t),
  IsTable-change_pass name pass t w v,
  (λ n. lookup-change_pass n name pass t),
)
