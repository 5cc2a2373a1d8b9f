-- ===== src/Softint/Steps.antt =====
-- project2/part1/softint.c: what `Order` says of a state holds in every state that can be reached.
use xjtu_os_project.Prelude.{
  ℕ, ◌≤◌, ◌≡◌, ◌≢◌, inl, refl, ap, List, [], ◌∷◌, ◌++◌, arith, total, total-append,
}
use xjtu_os_project.Softint.{
  Child, starting, ready, reported, waiting, printing, ended, killed, Parent, returned, Line,
  stop_test, child_killed, parent_killed, Shared, Flags, ChildMove, set_handler, report, close,
  test_clear, pause, test_set, print, handle, die, System, init, Step, first, second, main, Runs,
  start, later,
}
use xjtu_os_project.Softint.Children.{
  past, done, dead, sent2, is_line_of, move-ChildInv, move-bytes, past-handled,
}
use xjtu_os_project.Softint.Order.{Begins, Printed, gone2, Printed-append, Inv, wrote_byte-le}
use xjtu_os_project.Softint.Places.{places}
use xjtu_os_project.Softint.ParentSteps.{with_line, parent-Inv}

-- The lines of another child.
move_other :
    {i : ℕ} {h h' : Shared} {f f' : Flags} {c c' : Child} (j : ℕ)
    → ChildMove i h f c h' f' c'
    → i ≢ j
    → total (is_line_of j) h'.out ≡ total (is_line_of j) h.out
move_other j set_handler ne = refl
move_other j report ne = refl
move_other j close ne = refl
move_other j (test_clear z) ne = refl
move_other j pause ne = refl
move_other j (test_set z) ne = refl
move_other {i} {h} j print ne =
    ground (arith, total-append (is_line_of j) h.out (child_killed i ∷ []), ne)
move_other j (handle e g) ne = refl
move_other j (die e) ne = refl

-- A child that has ended stays so.
move_done :
    {i : ℕ} {h h' : Shared} {f f' : Flags} {c c' : Child}
    → ChildMove i h f c h' f' c'
    → done c ≤ done c'
move_done set_handler = omega arith
move_done report = omega arith
move_done close = omega arith
move_done (test_clear z) = omega arith
move_done pause = omega arith
move_done (test_set z) = omega arith
move_done print = omega arith
move_done (handle {c} e g) = let (a, b, d) = past-handled c g in omega (arith, d)
move_done (die e) = omega arith

move-Printed :
    {i : ℕ} {h h' : Shared} {f f' : Flags} {c c' : Child} (sig1 sig2 : ℕ) (p : Parent)
    → ChildMove i h f c h' f' c'
    → past c ≤ sent2 p
    → gone2 p ≤ done c
    → Printed sig1 sig2 p h.out
    → Printed sig1 sig2 p h'.out
move-Printed sig1 sig2 p set_handler s g b = b
move-Printed sig1 sig2 p report s g b = b
move-Printed sig1 sig2 p close s g b = b
move-Printed sig1 sig2 p (test_clear z) s g b = b
move-Printed sig1 sig2 p pause s g b = b
move-Printed sig1 sig2 p (test_set z) s g b = b
move-Printed {i} {h} sig1 sig2 p print s g b =
    Printed-append sig1 sig2 p h.out i s (omega (arith, g)) b
move-Printed sig1 sig2 p (handle e g') s g b = b
move-Printed sig1 sig2 p (die e) s g b = b

Step-Inv :
    {sig1 sig2 : ℕ} {s t : System}
    → Step sig1 sig2 s t
    → Inv sig1 sig2 s.world s.parent
    → Inv sig1 sig2 t.world t.parent
Step-Inv {sig1} {sig2} {s} (first {c} m) v =
    let (a, b, d, e) = places s.parent in
    let le2 = wrote_byte-le s.world.child2 in
    let le1 = wrote_byte-le s.world.child1 in
    let one = move-ChildInv m (omega (arith, a, b, d, v.count, le2)) (omega (arith, a, b)) v.one in
    record {
      one = one;
      two = with_line (omega arith) (move_other 2 m (omega arith)) v.two;
      count = omega (arith, move-bytes m one.alive, v.count);
      ended1 = omega (arith, move_done m, v.ended1);
      ended2 = v.ended2;
      known = v.known;
      printed =
          move-Printed sig1 sig2 s.parent m (omega (arith, v.one.past_le, v.one.got_le, a))
            (omega (arith, e, v.ended1)) v.printed;
    }
Step-Inv {sig1} {sig2} {s} (second m) v =
    let (a, b, d, e) = places s.parent in
    let le1 = wrote_byte-le s.world.child1 in
    let two = move-ChildInv m (omega (arith, b, d, v.count, le1)) b v.two in
    record {
      one = with_line (omega arith) (move_other 1 m (omega arith)) v.one;
      two = two;
      count = omega (arith, move-bytes m two.alive, v.count);
      ended1 = v.ended1;
      ended2 = omega (arith, move_done m, v.ended2);
      known = v.known;
      printed =
          move-Printed sig1 sig2 s.parent m (omega (arith, v.two.past_le, v.two.got_le)) v.ended2
            v.printed;
    }
Step-Inv {sig1} {sig2} {s} (main m) v = parent-Inv m v

Runs-Inv : {sig1 sig2 : ℕ} {s : System} → Runs sig1 sig2 init s → Inv sig1 sig2 s.world s.parent
Runs-Inv start = record {
  one = record {
    pending_le = omega arith;
    got_le = omega arith;
    past_le = omega arith;
    alive = refl;
    line = refl;
  };
  two = record {
    pending_le = omega arith;
    got_le = omega arith;
    past_le = omega arith;
    alive = refl;
    line = refl;
  };
  count = refl;
  ended1 = omega arith;
  ended2 = omega arith;
  known = inl (refl, refl);
  printed = refl;
}
Runs-Inv (later r st) = Step-Inv st (Runs-Inv r)

-- In every state that can be reached, no child has died of a signal: the parent sends them when both
-- children have set their handlers.
pub handlers_first :
    {sig1 sig2 : ℕ} {s : System}
    → Runs sig1 sig2 init s
    → (s.world.child1 ≢ killed) × (s.world.child2 ≢ killed)
handlers_first r =
    let v = Runs-Inv r in
    ((λ e. omega (arith, ap dead e, v.one.alive)), (λ e. omega (arith, ap dead e, v.two.alive)))

done-ended : (c : Child) → 1 ≤ done c → c ≡ ended
done-ended ended h = refl
done-ended starting h = absurd (omega arith)
done-ended ready h = absurd (omega arith)
done-ended reported h = absurd (omega arith)
done-ended (waiting w) h = absurd (omega arith)
done-ended printing h = absurd (omega arith)
done-ended killed h = absurd (omega arith)

done-le : (c : Child) → done c ≤ 1
done-le ended = omega arith
done-le starting = omega arith
done-le ready = omega arith
done-le reported = omega arith
done-le (waiting w) = omega arith
done-le printing = omega arith
done-le killed = omega arith

-- The line of a child that has ended stands in front of the last one.
once :
    (i : ℕ) {out : List Line} (c : Child) (body : List Line)
    → out ≡ body ++ parent_killed ∷ []
    → 1 ≤ done c
    → total (is_line_of i) out ≡ done c
    → is_line_of i parent_killed ≡ 0
    → total (is_line_of i) body ≡ 1
once i c body is h line z = omega (
  arith,
  ap (total (is_line_of i)) is,
  total-append (is_line_of i) body (parent_killed ∷ []),
  h,
  line,
  done-le c,
)

-- When the parent has returned, the first line that was printed has the number of SIGINT, SIGQUIT or
-- SIGALRM and the last one is the parent's last; between them the parent has printed the signal of
-- child 2 and then that of child 1, and each child has printed its line once. Neither child has died of
-- its signal.
pub softint_prints :
    {sig1 sig2 : ℕ} {s : System}
    → Runs sig1 sig2 init s
    → s.parent ≡ returned
    → (body : List Line) × (s.world.shared.out ≡ body ++ parent_killed ∷ [])
      × Begins body (stop_test sig2 ∷ stop_test sig1 ∷ [])
      × (total (is_line_of 1) body ≡ 1)
      × (total (is_line_of 2) body ≡ 1)
      × (s.world.child1 ≡ ended)
      × (s.world.child2 ≡ ended)
softint_prints {sig1} {sig2} {s} r e =
    let v : Inv sig1 sig2 s.world returned = rw (← e) (Runs-Inv r) in
    let (body, is, begins) = v.printed in
    (
      body,
      is,
      begins,
      once 1 s.world.child1 body is v.ended1 v.one.line refl,
      once 2 s.world.child2 body is v.ended2 v.two.line refl,
      done-ended s.world.child1 v.ended1,
      done-ended s.world.child2 v.ended2,
    )
