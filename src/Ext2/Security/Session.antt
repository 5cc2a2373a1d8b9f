-- ===== src/Ext2/Security/Session.antt =====
-- project3/src/security.c: the text that `session_save` writes, and what `session_load` makes of it.
use xjtu_os_project.Prelude.{
  ℕ, ◌<◌, ◌≤◌, ◌≡◌, refl, ap, ◌∙◌, List, [], ◌∷◌, ◌++◌, Option, some, arith, inl, true, ltb, length,
  length-append, ℤ, below_zero, above_zero,
}
use xjtu_os_project.Ext2.State.{Fs, Result, fs_err, ok, err}
use xjtu_os_project.Ext2.Text.{codes, show_int, int_bits}
use xjtu_os_project.Ext2.Accounts.{max_user_len, newline, session_line, parse_session}
use xjtu_os_project.Ext2.Accounts.Lines.{
  Lacks, Lacks-append, up_to-Lacks, show_int-Lacks, length-show_int, take_short,
  parse_session-session_line,
}
use xjtu_os_project.Ext2.Security.{session_text, take_session, read_session}

-- A number and a name are taken over, unless the name is empty.
abbrev pub logged_in : ℤ → List ℕ → Fs → Option (Result (Unit {0}) × Fs)
logged_in uid [] s = some (err fs_err, s)
logged_in uid (c ∷ user) s = some (ok tt, record s { g_uid = int_bits uid; g_user = c ∷ user })

module _ (uid : ℤ) (user : List ℕ) (short : length user < max_user_len) where
  length-session_line : length (session_line uid user) < 128
  unfolding session_line
  length-session_line = omega (
    arith,
    length-append (show_int uid) (newline ∷ (codes "user:" ++ (user ++ newline ∷ []))),
    length-append user (newline ∷ []),
    length-show_int uid,
  )

  take_session_lem : (s : Fs) → take_session (some (uid, user)) s ≡ logged_in uid user s
  unfolding take_session
  take_session_lem s = by_name user short
    where
      by_name :
          (name : List ℕ)
          → length name < max_user_len
          → take_session (some (uid, name)) s ≡ logged_in uid name s
      by_name [] h = refl
      by_name (c ∷ name) h =
          ap (λ (u : List ℕ). some (ok tt, record s { g_uid = int_bits uid; g_user = u }))
            (take_short 15 (c ∷ name) (omega (arith, h)))

  session_line-Lacks : Lacks 0 user → Lacks 0 (session_line uid user)
  unfolding session_line
  session_line-Lacks zeroless = Lacks-append 0 (codes "uid:") _ (omega arith) (
      Lacks-append 0 (show_int uid) _ (show_int-Lacks 0 uid (inl (omega arith)) (omega arith)) (
        Lacks-append 0 (newline ∷ codes "user:") _ (omega arith)
          (Lacks-append 0 user (newline ∷ []) zeroless (omega arith))))

  -- `session_load` looks at the whole text.
  read_session_lem :
      (s : Fs)
      → Lacks 0 user
      → read_session (session_line uid user) s
        ≡ take_session (parse_session (session_line uid user)) s
  unfolding read_session session_line
  read_session_lem s zeroless =
      ap (λ (text : List ℕ). take_session (parse_session text) s)
        (up_to-Lacks 0 (session_line uid user) (session_line-Lacks zeroless))

-- The text that `session_save` writes for an `int` and a user name, of at most 15 bytes with no newline
-- and no zero, fits its buffer of 128 bytes, the last of them left for the zero. Where these are the
-- bytes that `session_load` has read from the file, it takes over the same number and the same name, if
-- the name is not empty; for the empty name it returns FS_ERR and changes nothing.
pub read_session-session_text :
    (uid : ℤ) (user : List ℕ) (s : Fs)
    → below_zero uid ≤ 2147483648
    → above_zero uid < 2147483648
    → length user < max_user_len
    → Lacks newline user
    → Lacks 0 user
    → (line : List ℕ) × (session_text uid user ≡ some line)
      × (read_session line s ≡ logged_in uid user s)
read_session-session_text uid user s lo hi short plain zeroless = (
  session_line uid user,
  rw fits refl,
  read_session_lem uid user short s zeroless
      ∙ ap (λ (r : Option (ℤ × List ℕ)). take_session r s)
          (parse_session-session_line uid user lo hi short plain)
      ∙ take_session_lem uid user short s,
)
  where
    fits : ltb (length (session_line uid user)) 128 ≡ true
    fits = ground (arith, length-session_line uid user short)
