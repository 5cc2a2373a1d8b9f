-- ===== src/Ext2/Accounts.antt =====
-- project3/src/security.c: the text of /.users and /.session, and the loops over its lines. A text that
-- the program has read lies in memory with other bytes behind it; where a loop runs past them all, or
-- `atoi` is given no `int`, the result is `none`.
pub mod Lines
pub mod Table
pub mod Users
mod Tests
use xjtu_os_project.Prelude.{
  ℕ, ◌+◌, ◌-◌, ◌≤◌, Bool, true, false, ◌&&◌, ◌||◌, List, [], ◌∷◌, ◌++◌, Option, none, some,
  if◌then◌else◌, ltb, leb, ◌==◌, take, length, ℤ, pos, negsuc, ltb_ℤ,
}
use xjtu_os_project.Ext2.State.{Result, eexist, ok, err}
use xjtu_os_project.Ext2.Text.{codes, strchr, up_to, strcmp_eq, strstr, atoi, int_pos, show_int}

abbrev pub max_user_len : ℕ
max_user_len = 16

abbrev pub newline : ℕ
newline = 10

pub record Account : Type 0 where
  pub name : List ℕ
  pub pass : List ℕ
  pub uid : ℤ

-- The account of a line whose number has been read.
abbrev pub with_uid : List ℕ → List ℕ → Option ℤ → Option (Option Account)
with_uid name pass none = none
with_uid name pass (some uid) = some (some (record { name = name; pass = pass; uid = uid }))

-- `some none` is the return value -1.
unfoldable pub parse_fields : List ℕ → List ℕ → List ℕ → Option (Option Account)
parse_fields name pass number =
    if leb max_user_len (length name) || (leb max_user_len (length pass) || leb 16 (length number))
    then some none
    else with_uid name pass (atoi number)

abbrev pub split_pass : List ℕ → Option (List ℕ × List ℕ) → Option (Option Account)
split_pass name none = some none
split_pass name (some (pass, number)) = parse_fields name pass (up_to newline number)

abbrev pub split_name : Option (List ℕ × List ℕ) → Option (Option Account)
split_name none = some none
split_name (some (name, rest)) = split_pass name (strchr b':' rest)

unfoldable pub parse_line : List ℕ → Option (Option Account)
unfolding parse_fields
parse_line line = split_name (strchr b':' line)

-- `snprintf(…, "%s:%s:%d\n", …)`
unfoldable pub show_account : List ℕ → List ℕ → ℤ → List ℕ
show_account name pass uid = name ++ (b':' ∷ (pass ++ (b':' ∷ (show_int uid ++ newline ∷ []))))

abbrev pub last_line : List ℕ → List (List ℕ)
last_line [] = []
last_line (c ∷ line) = (c ∷ line) ∷ []

abbrev pub add_line : List ℕ → List (List ℕ) × Bool → List (List ℕ) × Bool
add_line line (lines, ended) = (line ∷ lines, ended)

-- The lines that the loops `for(char* p = s; p && *p; )` find in memory from `p` on, `line` being what
-- they have seen of the present one; and whether a zero byte ended them, or memory did.
unfoldable pub lines_of : List ℕ → List ℕ → List (List ℕ) × Bool
lines_of line [] = ([], false)
lines_of line (c ∷ p) =
    let next = add_line line (lines_of [] p) in
    let further = lines_of (line ++ c ∷ []) p in
    if c == newline then next else if c == 0 then (last_line line, true) else further

-- The array `line` has 256 bytes.
abbrev pub line_at : List ℕ → List ℕ
line_at line = take 255 line

-- Where a loop is done: at a zero byte it has its result, and past the memory it is undefined.
abbrev pub at_end {ℓ} : {A : Type ℓ} → Bool → A → Option A
at_end true a = some a
at_end false a = none

-- The body of the loop of `users_login`, `rest` being what the further lines give.
abbrev pub find_in :
    List ℕ → List ℕ → Option (Option Account) → Option (Option ℤ) → Option (Option ℤ)
find_in name pass none rest = none
find_in name pass (some none) rest = rest
find_in name pass (some (some a)) rest =
    if strcmp_eq a.name name && strcmp_eq a.pass pass then some (some a.uid) else rest

-- The loop of `users_login`: `some none` where no line matches.
unfoldable pub find_account : List ℕ → List ℕ → List (List ℕ) → Bool → Option (Option ℤ)
find_account name pass [] ended = at_end ended none
find_account name pass (l ∷ lines) ended =
    find_in name pass (parse_line (line_at l)) (find_account name pass lines ended)

abbrev pub larger : ℤ → ℤ → ℤ
larger max_uid u = if ltb_ℤ max_uid u then u else max_uid

-- The body of the loop of `users_add`.
abbrev pub max_in :
    List ℕ → ℤ → Option (Option Account) → (ℤ → Option (Result ℤ)) → Option (Result ℤ)
max_in name max_uid none rest = none
max_in name max_uid (some none) rest = rest max_uid
max_in name max_uid (some (some a)) rest =
    let further = rest (larger max_uid a.uid) in
    if strcmp_eq a.name name then some (err eexist) else further

-- The loop of `users_add`: the largest uid, from `max_uid` on.
unfoldable pub max_account : List ℕ → List (List ℕ) → Bool → ℤ → Option (Result ℤ)
max_account name [] ended max_uid = at_end ended (ok max_uid)
max_account name (l ∷ lines) ended max_uid =
    max_in name max_uid (parse_line (line_at l)) (max_account name lines ended)

-- The array `out` has 256 bytes.
abbrev pub new_line : List ℕ → List ℕ → Account → List ℕ
new_line name pass a =
    take 255 (show_account a.name (if strcmp_eq a.name name then pass else a.pass) a.uid)

abbrev pub more_lines : List ℕ → Option (List (List ℕ)) → Option (List (List ℕ))
more_lines l none = none
more_lines l (some ls) = some (l ∷ ls)

abbrev pub new_in :
    List ℕ → List ℕ → Option (Option Account) → Option (List (List ℕ)) → Option (List (List ℕ))
new_in name pass none rest = none
new_in name pass (some none) rest = rest
new_in name pass (some (some a)) rest = more_lines (new_line name pass a) rest

-- The lines that the loop of `users_change_password` writes.
unfoldable pub new_lines : List ℕ → List ℕ → List (List ℕ) → Bool → Option (List (List ℕ))
new_lines name pass [] ended = at_end ended []
new_lines name pass (l ∷ lines) ended =
    new_in name pass (parse_line (line_at l)) (new_lines name pass lines ended)

-- `max_uid + 1`
abbrev pub next_uid : ℤ → Option ℤ
next_uid (pos n) = int_pos (n + 1)
next_uid (negsuc n) = if n == 0 then some (pos 0) else some (negsuc (n - 1))

-- `snprintf(line, sizeof(line), "uid:%d\nuser:%s\n", …)`
unfoldable pub session_line : ℤ → List ℕ → List ℕ
session_line uid user =
    codes "uid:" ++ (show_int uid ++ (newline ∷ (codes "user:" ++ (user ++ newline ∷ []))))

abbrev pub uid_or_zero : Option (List ℕ) → Option ℤ
uid_or_zero none = some (pos 0)
uid_or_zero (some s) = atoi s

abbrev pub user_or_none : Option (List ℕ) → List ℕ
user_or_none none = []
user_or_none (some s) = take (max_user_len - 1) (up_to newline s)

abbrev pub session_of : Option ℤ → List ℕ → Option (ℤ × List ℕ)
session_of none user = none
session_of (some uid) user = some (uid, user)

-- What `session_load` finds in its buffer.
unfoldable pub parse_session : List ℕ → Option (ℤ × List ℕ)
parse_session buf =
    session_of (uid_or_zero (strstr (codes "uid:") buf)) (user_or_none (strstr (codes "user:") buf))
