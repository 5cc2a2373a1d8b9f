-- ===== src/Ext2/Accounts/Table.antt =====
-- project3/src/security.c: the text of a table of accounts, and what the loops over its lines find.
use mathlib.Core.List.{append-nil, append_assoc}
use xjtu_os_project.Prelude.{
  ℕ, ◌<◌, ◌≡◌, refl, ap, sym, ◌∙◌, Bool, true, false, ◌&&◌, Bool-cases, inl, inr, List, [], ◌∷◌,
  ◌++◌, Option, none, some, arith, if◌then◌else◌, ◌==◌, length, length-append, ℤ,
}
use xjtu_os_project.Ext2.State.{Result, eexist, ok, err}
use xjtu_os_project.Ext2.Text.{strcmp_eq, show_int}
use xjtu_os_project.Ext2.Accounts.{
  newline, Account, show_account, add_line, lines_of, larger, find_in, find_account, max_in,
  max_account, new_line, more_lines, new_in, new_lines,
}
use xjtu_os_project.Ext2.Accounts.Lines.{
  Lacks, IsWord, IsAccount, account_line, Lacks-append, show_int-Lacks, take_short,
  parse_line-account_line, length-account_line,
}

-- The text of a table of accounts.
abbrev pub render : List Account → List ℕ
render [] = []
render (a ∷ t) = show_account a.name a.pass a.uid ++ render t

abbrev pub table_lines : List Account → List (List ℕ)
table_lines [] = []
table_lines (a ∷ t) = account_line a ∷ table_lines t

-- The first account of the name.
abbrev pub lookup : List ℕ → List Account → Option Account
lookup name [] = none
lookup name (a ∷ t) = let rest = lookup name t in if strcmp_eq a.name name then some a else rest

-- Every line can be read back, and no two accounts have one name.
abbrev pub IsTable : List Account → Type 0
IsTable [] = Unit
IsTable (a ∷ t) = IsAccount a × (lookup a.name t ≡ none) × IsTable t

-- The largest uid, or `m`.
abbrev pub max_uid_of : ℤ → List Account → ℤ
max_uid_of m [] = m
max_uid_of m (a ∷ t) = max_uid_of (larger m a.uid) t

abbrev pub with_pass : List ℕ → List ℕ → Account → Account
with_pass name pass a = record a { pass = if strcmp_eq a.name name then pass else a.pass }

-- The table in which the accounts of the name have the password.
abbrev pub change_pass : List ℕ → List ℕ → List Account → List Account
change_pass name pass [] = []
change_pass name pass (a ∷ t) = with_pass name pass a ∷ change_pass name pass t

both-true : (p q : Bool) → (p && q) ≡ true → (p ≡ true) × (q ≡ true)
both-true true true h = (refl, refl)
both-true true false h = cc
both-true false q h = cc

pub strcmp_eq_lem : (a b : List ℕ) → strcmp_eq a b ≡ true → a ≡ b
unfolding strcmp_eq
strcmp_eq_lem [] [] h = refl
strcmp_eq_lem [] (y ∷ b) h = cc
strcmp_eq_lem (x ∷ a) [] h = cc
strcmp_eq_lem (x ∷ a) (y ∷ b) h =
    let (e, f) = both-true (x == y) (strcmp_eq a b) h in
    let same : x ≡ y = ground (arith, e) in
    ap (λ z. z ∷ a) same ∙ ap (λ l. y ∷ l) (strcmp_eq_lem a b f)

pub strcmp_eq_refl : (a : List ℕ) → strcmp_eq a a ≡ true
unfolding strcmp_eq
strcmp_eq_refl [] = refl
strcmp_eq_refl (x ∷ a) = ground (arith, strcmp_eq_refl a)

show_account-line :
    (a : Account) (rest : List ℕ)
    → show_account a.name a.pass a.uid ++ rest ≡ account_line a ++ newline ∷ rest
unfolding show_account
show_account-line a rest = simp append_assoc

pub lines_of-append :
    (line s rest : List ℕ)
    → Lacks newline s
    → Lacks 0 s
    → lines_of line (s ++ newline ∷ rest) ≡ add_line (line ++ s) (lines_of [] rest)
unfolding lines_of
lines_of-append line [] rest h k = ap (λ l. add_line l (lines_of [] rest)) (sym (append-nil line))
lines_of-append line (c ∷ s) rest h k =
    let further = lines_of-append (line ++ c ∷ []) s rest h.1 k.1 in
    ground (arith, h.0, k.0, further)
    ∙ ap (λ l. add_line l (lines_of [] rest)) (append_assoc line (c ∷ []) s)

line-Lacks :
    (c : ℕ) (a : Account) → c < b'-' → Lacks c a.name → Lacks c a.pass → Lacks c (account_line a)
line-Lacks c a h name pass =
    Lacks-append c a.name (b':' ∷ (a.pass ++ (b':' ∷ show_int a.uid))) name (
      omega arith,
      Lacks-append c a.pass (b':' ∷ show_int a.uid) pass
          (omega arith, show_int-Lacks c a.uid (inl (omega arith)) (omega arith)),
    )

-- The lines of the text of a table, with a zero byte and other memory behind it.
pub lines_of-render :
    (t : List Account) (heap : List ℕ)
    → IsTable t
    → lines_of [] (render t ++ 0 ∷ heap) ≡ (table_lines t, true)
unfolding lines_of
lines_of-render [] heap v = refl
lines_of-render (a ∷ t) heap v =
    ap (lines_of []) (
      append_assoc (show_account a.name a.pass a.uid) (render t) (0 ∷ heap)
      ∙ show_account-line a (render t ++ 0 ∷ heap))
    ∙ lines_of-append [] (account_line a) (render t ++ 0 ∷ heap)
        (line-Lacks newline a (omega arith) v.0.name.no_newline v.0.pass.no_newline)
        (line-Lacks 0 a (omega arith) v.0.name.no_zero v.0.pass.no_zero)
    ∙ ap (add_line (account_line a)) (lines_of-render t heap v.2)

-- An account of the name in the table is the one that `users_login` compares with.
abbrev pub login : List ℕ → Option Account → Option ℤ
login pass none = none
login pass (some a) = if strcmp_eq a.pass pass then some a.uid else none

lookup-same : (a b : List ℕ) (t : List Account) → a ≡ b → lookup a t ≡ none → lookup b t ≡ none
lookup-same a b t e h = ap (λ n. lookup n t) (sym e) ∙ h

find_in-cases :
    (name pass : List ℕ) (a : Account) (t : List Account)
    → lookup a.name t ≡ none
    → find_in name pass (some (some a)) (some (login pass (lookup name t)))
      ≡ some (login pass (lookup name (a ∷ t)))
find_in-cases name pass a t h = elim (Bool-cases (strcmp_eq a.name name)) [
  | inl e ↦
      let gone = lookup-same a.name name t (strcmp_eq_lem a.name name e) h in
      rw (e, gone)
        (elim (Bool-cases (strcmp_eq a.pass pass)) [ inl f ↦ rw f refl | inr f ↦ rw f refl ])
  | inr e ↦ rw e refl
]

pub find_account-login :
    (name pass : List ℕ) (t : List Account)
    → IsTable t
    → find_account name pass (table_lines t) true ≡ some (login pass (lookup name t))
unfolding find_account
find_account-login name pass [] v = refl
find_account-login name pass (a ∷ t) v =
    ap (λ r. find_in name pass r (find_account name pass (table_lines t) true))
      (parse_line-account_line a v.0)
    ∙ ap (find_in name pass (some (some a))) (find_account-login name pass t v.2)
    ∙ find_in-cases name pass a t v.1

-- What `users_add` makes of the account of the name, and of the largest uid.
abbrev pub known_or : Option Account → ℤ → Result ℤ
known_or none m = ok m
known_or (some a) m = err eexist

max_in-cases :
    (name : List ℕ) (m : ℤ) (a : Account) (t : List Account) (rest : ℤ → Option (Result ℤ))
    → ((k : ℤ) → rest k ≡ some (known_or (lookup name t) (max_uid_of k t)))
    → max_in name m (some (some a)) rest
      ≡ some (known_or (lookup name (a ∷ t)) (max_uid_of m (a ∷ t)))
max_in-cases name m a t rest h = elim (Bool-cases (strcmp_eq a.name name)) [
  | inl e ↦ rw e refl
  | inr e ↦ rw e (h (larger m a.uid))
]

pub max_account-known_or :
    (name : List ℕ) (t : List Account) (m : ℤ)
    → IsTable t
    → max_account name (table_lines t) true m ≡ some (known_or (lookup name t) (max_uid_of m t))
unfolding max_account
max_account-known_or name [] m v = refl
max_account-known_or name (a ∷ t) m v =
    ap (λ r. max_in name m r (max_account name (table_lines t) true))
      (parse_line-account_line a v.0)
    ∙ max_in-cases name m a t (max_account name (table_lines t) true)
        (λ k. max_account-known_or name t k v.2)

abbrev pub concat : List (List ℕ) → List ℕ
concat [] = []
concat (l ∷ ls) = l ++ concat ls

-- The lines of the changed table.
abbrev pub shown : List Account → List (List ℕ)
shown [] = []
shown (a ∷ t) = show_account a.name a.pass a.uid ∷ shown t

pub with_pass-IsAccount :
    (name pass : List ℕ) (a : Account)
    → IsWord pass
    → IsAccount a
    → IsAccount (with_pass name pass a)
with_pass-IsAccount name pass a w v = elim (Bool-cases (strcmp_eq a.name name)) [
  | inl e ↦ record { name = v.name; pass = rw e w; low = v.low; high = v.high }
  | inr e ↦ record { name = v.name; pass = rw e v.pass; low = v.low; high = v.high }
]

pub length-show_account :
    (a : Account) → IsAccount a → length (show_account a.name a.pass a.uid) < 49
length-show_account a v =
    let line = show_account-line a [] in
    let same : show_account a.name a.pass a.uid ≡ account_line a ++ newline ∷ [] =
      sym (append-nil (show_account a.name a.pass a.uid)) ∙ line in
    rw same (omega (arith, length-append (account_line a) (newline ∷ []), length-account_line a v))

new_line-shown :
    (name pass : List ℕ) (a : Account)
    → IsWord pass
    → IsAccount a
    → new_line name pass a ≡ show_account a.name (with_pass name pass a).pass a.uid
new_line-shown name pass a w v =
    take_short 255 (show_account a.name (with_pass name pass a).pass a.uid) (
      omega
        (arith, length-show_account (with_pass name pass a) (with_pass-IsAccount name pass a w v)))

pub new_lines-shown :
    (name pass : List ℕ) (t : List Account)
    → IsWord pass
    → IsTable t
    → new_lines name pass (table_lines t) true ≡ some (shown (change_pass name pass t))
unfolding new_lines
new_lines-shown name pass [] w v = refl
new_lines-shown name pass (a ∷ t) w v =
    ap (λ r. new_in name pass r (new_lines name pass (table_lines t) true))
      (parse_line-account_line a v.0)
    ∙ ap (more_lines (new_line name pass a)) (new_lines-shown name pass t w v.2)
    ∙ ap (λ l. some (l ∷ shown (change_pass name pass t))) (new_line-shown name pass a w v.0)
