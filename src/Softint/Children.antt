-- ===== src/Softint/Children.antt =====
-- project2/part1/softint.c: what is known of one child.
use xjtu_os_project.Prelude.{
  ℕ, ◌+◌, ◌≤◌, ◌≡◌, ◌≢◌, refl, sym, ◌∙◌, List, [], ◌∷◌, arith, total, total-append, if◌then◌else◌,
  ◌==◌,
}
use xjtu_os_project.Softint.{
  Child, starting, ready, reported, waiting, printing, ended, killed, Parent, reading, line2, kill1,
  line1, wait1, wait2, last_line, returned, Line, child_killed, Shared, Flags, handled, IsHandling,
  ChildMove, set_handler, report, close, test_clear, pause, test_set, print, handle, die,
}

-- 1 when the child has written its byte.
abbrev pub wrote_byte : Child → ℕ
wrote_byte starting = 0
wrote_byte ready = 0
wrote_byte killed = 0
wrote_byte _ = 1

-- 1 when the child has seen its flag.
abbrev pub past : Child → ℕ
past printing = 1
past ended = 1
past _ = 0

abbrev pub done : Child → ℕ
done ended = 1
done _ = 0

abbrev pub dead : Child → ℕ
dead killed = 1
dead _ = 0

-- 1 when the parent has sent the signal to child 1, and to child 2.
abbrev pub sent1 : Parent → ℕ
sent1 line1 = 1
sent1 wait1 = 1
sent1 wait2 = 1
sent1 last_line = 1
sent1 returned = 1
sent1 _ = 0

abbrev pub sent2 : Parent → ℕ
sent2 line2 = 1
sent2 kill1 = 1
sent2 p = sent1 p

-- The bytes that the parent has read.
abbrev pub has_read : Parent → ℕ
has_read (reading k) = k
has_read _ = 2

abbrev pub is_line_of : ℕ → Line → ℕ
is_line_of i (child_killed j) = if i == j then 1 else 0
is_line_of i _ = 0

-- What is known of the child `i`, whose signal has been sent if `on` is 1.
pub record ChildInv (i on : ℕ) (out : List Line) (f : Flags) (c : Child) : Type 0 where
  pub pending_le : f.pending ≤ on
  pub got_le : f.got ≤ on
  pub past_le : past c ≤ f.got
  pub alive : dead c ≡ 0
  pub line : total (is_line_of i) out ≡ done c

wrote_handled : (c : Child) → IsHandling c → wrote_byte (handled c) ≡ wrote_byte c
wrote_handled starting h = elim h [ ]
wrote_handled ended h = elim h [ ]
wrote_handled killed h = elim h [ ]
wrote_handled ready h = refl
wrote_handled reported h = refl
wrote_handled (waiting w) h = refl
wrote_handled printing h = refl

pub past-handled :
    (c : Child)
    → IsHandling c
    → (past (handled c) ≤ 1) × (dead (handled c) ≡ 0) × (done (handled c) ≡ done c)
past-handled starting h = elim h [ ]
past-handled ended h = elim h [ ]
past-handled killed h = elim h [ ]
past-handled ready h = omega arith
past-handled reported h = omega arith
past-handled (waiting w) h = omega arith
past-handled printing h = omega arith

positive : (n : ℕ) → n ≢ 0 → 1 ≤ n
positive n ne = omega arith

pub move-ChildInv :
    {i on : ℕ} {h h' : Shared} {f f' : Flags} {c c' : Child}
    → ChildMove i h f c h' f' c'
    → on ≤ wrote_byte c
    → on ≤ 1
    → ChildInv i on h.out f c
    → ChildInv i on h'.out f' c'
move-ChildInv set_handler w o v = record {
  pending_le = v.pending_le;
  got_le = v.got_le;
  past_le = omega arith;
  alive = refl;
  line = v.line;
}
move-ChildInv report w o v = record {
  pending_le = v.pending_le;
  got_le = v.got_le;
  past_le = omega arith;
  alive = refl;
  line = v.line;
}
move-ChildInv close w o v = record {
  pending_le = v.pending_le;
  got_le = v.got_le;
  past_le = omega arith;
  alive = refl;
  line = v.line;
}
move-ChildInv (test_clear z) w o v = record {
  pending_le = v.pending_le;
  got_le = v.got_le;
  past_le = omega arith;
  alive = refl;
  line = v.line;
}
move-ChildInv pause w o v = record {
  pending_le = v.pending_le;
  got_le = v.got_le;
  past_le = omega arith;
  alive = refl;
  line = v.line;
}
move-ChildInv {f} (test_set ne) w o v = record {
  pending_le = v.pending_le;
  got_le = v.got_le;
  past_le = positive f.got ne;
  alive = refl;
  line = v.line;
}
move-ChildInv {i} {h} print w o v = record {
  pending_le = v.pending_le;
  got_le = v.got_le;
  past_le = omega (arith, v.past_le);
  alive = refl;
  line = ground (arith, total-append (is_line_of i) h.out (child_killed i ∷ []), v.line);
}
move-ChildInv (handle {c} e g) w o v =
    let (a, b, d) = past-handled c g in
    record {
      pending_le = omega arith;
      got_le = omega (arith, v.pending_le, e);
      past_le = a;
      alive = b;
      line = v.line ∙ sym d;
    }
move-ChildInv (die e) w o v = absurd (omega (arith, v.pending_le, w, e))

-- The count of bytes and the place of a child that has written.
pub move-bytes :
    {i : ℕ} {h h' : Shared} {f f' : Flags} {c c' : Child}
    → ChildMove i h f c h' f' c'
    → dead c' ≡ 0
    → h'.bytes + wrote_byte c ≡ h.bytes + wrote_byte c'
move-bytes set_handler a = refl
move-bytes report a = omega arith
move-bytes close a = refl
move-bytes (test_clear z) a = refl
move-bytes pause a = refl
move-bytes (test_set ne) a = refl
move-bytes print a = refl
move-bytes {h} (handle {c} e g) a = omega (arith, wrote_handled c g)
move-bytes (die e) a = absurd (omega arith)
