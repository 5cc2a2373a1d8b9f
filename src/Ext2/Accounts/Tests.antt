-- ===== src/Ext2/Accounts/Tests.antt =====
-- project3/src/security.c: the theorems at a table of two accounts, and runs of the parsers.
use xjtu_os_project.Prelude.{ℕ, ◌≡◌, refl, arith, List, [], ◌∷◌, ◌++◌, none, some, All, take, pos}
use xjtu_os_project.Ext2.Text.{codes, strchr, up_to, strcmp_eq, atoi}
use xjtu_os_project.Ext2.Accounts.{
  Account, parse_line, show_account, lines_of, find_account, max_account, new_lines,
}
use xjtu_os_project.Ext2.Accounts.Lines.{IsAccount}
use xjtu_os_project.Ext2.Security.{session_text, read_session}
use xjtu_os_project.Ext2.Security.Session.{logged_in, read_session-session_text}
use xjtu_os_project.Ext2.Tests.{blank}
use xjtu_os_project.Ext2.Accounts.Table.{
  render, lookup, IsTable, max_uid_of, known_or, login, change_pass, concat, shown,
}
use xjtu_os_project.Ext2.Accounts.Users.{
  or_new, if_named, Below, changed, login_refines, add_refines, change_refines,
}

abbrev root : Account
root = record { name = codes "root"; pass = codes "root"; uid = pos 0 }

abbrev bob : Account
bob = record { name = codes "bob"; pass = codes "pw"; uid = pos 1 }

abbrev eve : Account
eve = record { name = codes "eve"; pass = codes "x"; uid = pos 2 }

abbrev table : List Account
table = root ∷ bob ∷ []

root-IsAccount : IsAccount root
root-IsAccount = record {
  name = record {
    short = omega arith;
    no_colon = omega arith;
    no_newline = omega arith;
    no_zero = omega arith;
  };
  pass = record {
    short = omega arith;
    no_colon = omega arith;
    no_newline = omega arith;
    no_zero = omega arith;
  };
  low = omega arith;
  high = omega arith;
}

bob-IsAccount : IsAccount bob
bob-IsAccount = record {
  name = record {
    short = omega arith;
    no_colon = omega arith;
    no_newline = omega arith;
    no_zero = omega arith;
  };
  pass = record {
    short = omega arith;
    no_colon = omega arith;
    no_newline = omega arith;
    no_zero = omega arith;
  };
  low = omega arith;
  high = omega arith;
}

eve-IsAccount : IsAccount eve
eve-IsAccount = record {
  name = record {
    short = omega arith;
    no_colon = omega arith;
    no_newline = omega arith;
    no_zero = omega arith;
  };
  pass = record {
    short = omega arith;
    no_colon = omega arith;
    no_newline = omega arith;
    no_zero = omega arith;
  };
  low = omega arith;
  high = omega arith;
}

table-IsTable : IsTable table
unfolding strcmp_eq
table-IsTable = (root-IsAccount, refl, (bob-IsAccount, refl, tt))

eve_is_new : lookup eve.name table ≡ none
unfolding strcmp_eq
eve_is_new = refl

read_session-session_text_example :
    (line : List ℕ) × (session_text (pos 1) (codes "bob") ≡ some line)
    × (read_session line blank ≡ logged_in (pos 1) (codes "bob") blank)
read_session-session_text_example =
    read_session-session_text (pos 1) (codes "bob") blank (omega arith) (omega arith) (omega arith)
      (omega arith) (omega arith)

login_refines_example :
    find_account
      (codes "bob")
      (codes "pw")
      (lines_of [] (render table ++ 0 ∷ 7 ∷ [])).0
      (lines_of [] (render table ++ 0 ∷ 7 ∷ [])).1
    ≡ some (login (codes "pw") (lookup (codes "bob") table))
login_refines_example = login_refines (codes "bob") (codes "pw") table (7 ∷ []) table-IsTable

add_refines_example :
    ((name : List ℕ)
      → max_account name
          (lines_of [] (render table ++ 0 ∷ [])).0
          (lines_of [] (render table ++ 0 ∷ [])).1
          (pos 0)
        ≡ some (known_or (lookup name table) (max_uid_of (pos 0) table)))
    × (render table ++ take 255 (show_account eve.name eve.pass eve.uid)
        ≡ render (table ++ eve ∷ []))
    × IsTable (table ++ eve ∷ [])
    × ((n : List ℕ) → lookup n (table ++ eve ∷ []) ≡ or_new (lookup n table) (if_named n eve))
    × All (λ b. Below b.uid eve.uid) table
add_refines_example = add_refines table eve [] table-IsTable eve-IsAccount refl eve_is_new

change_refines_example :
    (new_lines
        (codes "bob")
        (codes "x")
        (lines_of [] (render table ++ 0 ∷ [])).0
        (lines_of [] (render table ++ 0 ∷ [])).1
      ≡ some (shown (change_pass (codes "bob") (codes "x") table)))
    × (concat (shown (change_pass (codes "bob") (codes "x") table))
        ≡ render (change_pass (codes "bob") (codes "x") table))
    × IsTable (change_pass (codes "bob") (codes "x") table)
    × ((n : List ℕ)
        → lookup n (change_pass (codes "bob") (codes "x") table)
          ≡ changed (codes "bob") (codes "x") (lookup n table))
change_refines_example =
    change_refines (codes "bob") (codes "x") table [] table-IsTable eve-IsAccount.pass

parse_line_run : parse_line (codes "bob:pw:1") ≡ some (some bob)
unfolding parse_line strchr up_to atoi
parse_line_run = refl

-- A password of sixteen bytes makes a line that is not read back.
parse_line_long : parse_line (codes "bob:0123456789abcdef:1") ≡ some none
unfolding parse_line strchr up_to atoi
parse_line_long = refl
