-- ===== src/Softint/ParentSteps.antt =====
-- project2/part1/softint.c: a step of the parent keeps what `Order` says of a state.
use xjtu_os_project.Prelude.{
  ℕ, ◌≤◌, ◌≡◌, ◌≢◌, ◌⊎◌, inl, inr, refl, ap, ◌∙◌, List, [], ◌∷◌, ◌++◌, arith, total, total-append,
}
use xjtu_os_project.Softint.{
  testing, pausing, asleep, Child, Parent, await_trigger, first_line, kill2, kill1, wait1, wait2,
  last_line, returned, Line, stop_test, parent_killed, Flags, World, said, ParentMove, read,
  end_of_file, both_read, trigger, parent_clear, parent_pause, parent_set, print_first, send2,
  print2, send1, print1, wait_child1, wait_child2, print_last,
}
use xjtu_os_project.Softint.Children.{done, sent1, sent2, has_read, is_line_of, ChildInv}
use xjtu_os_project.Softint.Order.{
  IsTrigger, Begins, Printed, Begins-append, gone1, gone2, tripping, Inv, wrote_byte-le,
}
use xjtu_os_project.Softint.Places.{
  gone-ended, closed_wrote, signo-IsTrigger, woken_same, woken-Printed,
}

pub with_line :
    {i on on' : ℕ} {out out' : List Line} {f : Flags} {c : Child}
    → on ≤ on'
    → total (is_line_of i) out' ≡ total (is_line_of i) out
    → ChildInv i on out f c
    → ChildInv i on' out' f c
with_line h e v = record {
  pending_le = omega (arith, v.pending_le, h);
  got_le = omega (arith, v.got_le, h);
  past_le = v.past_le;
  alive = v.alive;
  line = e ∙ v.line;
}

keep_known : {a b c : ℕ} {B : Type 0} → c ≡ 0 → ((a ≡ 0) × (b ≡ 0)) ⊎ B → ((a ≡ 0) × (c ≡ 0)) ⊎ B
keep_known e (inl x) = inl (x.0, e)
keep_known e (inr y) = inr y

-- The parent goes to another place; its signals to the children and their ends are in order.
module _ (sig1 sig2 : ℕ) {w : World} {p : Parent} (p' : Parent) (v : Inv sig1 sig2 w p) where
  -- It says nothing.
  moved :
      sent1 p ≤ sent1 p'
      → sent2 p ≤ sent2 p'
      → has_read p ≡ has_read p'
      → gone1 p' ≤ done w.child1
      → gone2 p' ≤ done w.child2
      → ((w.parent_tripped ≡ 0) × (tripping p' ≡ 0)) ⊎ IsTrigger w.last_parent_sig
      → Printed sig1 sig2 p' w.shared.out
      → Inv sig1 sig2 w p'
  moved s1 s2 r e1 e2 t b = record {
    one = with_line s1 refl v.one;
    two = with_line s2 refl v.two;
    count = omega (arith, v.count, r);
    ended1 = e1;
    ended2 = e2;
    known = t;
    printed = b;
  }

  -- It says the line `l`.
  spoke :
      (l : Line)
      → (is_line_of 1 l ≡ 0) × (is_line_of 2 l ≡ 0)
      → (sent1 p ≡ sent1 p') × (sent2 p ≡ sent2 p') × (has_read p ≡ has_read p')
      → (gone1 p' ≤ gone1 p) × (gone2 p' ≤ gone2 p)
      → tripping p' ≡ 0
      → Printed sig1 sig2 p' (w.shared.out ++ l ∷ [])
      → Inv sig1 sig2 (said l w) p'
  spoke l (n1, n2) (s1, s2, r) (e1, e2) t b = record {
    one =
        with_line (omega (arith, s1))
          (omega (arith, total-append (is_line_of 1) w.shared.out (l ∷ []), n1)) v.one;
    two =
        with_line (omega (arith, s2))
          (omega (arith, total-append (is_line_of 2) w.shared.out (l ∷ []), n2)) v.two;
    count = omega (arith, v.count, r);
    ended1 = omega (arith, e1, v.ended1);
    ended2 = omega (arith, e2, v.ended2);
    known = keep_known t v.known;
    printed = b;
  }

now_known : {a b c : ℕ} {B : Type 0} → a ≢ 0 → ((a ≡ 0) × (b ≡ 0)) ⊎ B → ((a ≡ 0) × (c ≡ 0)) ⊎ B
now_known ne (inl x) = absurd (ne x.0)
now_known ne (inr y) = inr y

told : {a b : ℕ} {B : Type 0} → b ≡ 1 → ((a ≡ 0) × (b ≡ 0)) ⊎ B → B
told e (inl x) = absurd (omega (arith, x.1))
told e (inr y) = y

begins :
    (sig : ℕ) (out : List Line) → IsTrigger sig → out ≡ [] → Begins (out ++ stop_test sig ∷ []) []
begins sig out t e = record {
  sig = sig;
  is_trigger = t;
  rest = [];
  is = ap (λ l. l ++ stop_test sig ∷ []) e;
  owns = refl;
}

pub parent-Inv :
    {sig1 sig2 : ℕ} {w w' : World} {p p' : Parent}
    → ParentMove sig1 sig2 w p w' p'
    → Inv sig1 sig2 w p
    → Inv sig1 sig2 w' p'
parent-Inv {w} {p} (read {k} {n} {b} h l e) v = record {
  one = v.one;
  two = v.two;
  count = omega (arith, v.count, e);
  ended1 = omega arith;
  ended2 = omega arith;
  known = v.known;
  printed = v.printed;
}
parent-Inv {w} (end_of_file {k} l z x y) v = absurd (
    omega (
      arith,
      l,
      z,
      v.count,
      closed_wrote w.child1 v.one.alive x,
      closed_wrote w.child2 v.two.alive y,
    ))
parent-Inv {sig1} {sig2} {w} (both_read {k} l) v =
    moved sig1 sig2 (await_trigger testing) v (omega arith) (omega arith)
      (omega (arith, l, v.count, wrote_byte-le w.child1, wrote_byte-le w.child2)) (omega arith)
      (omega arith) v.known v.printed
parent-Inv {sig1} {sig2} {w} {p} (trigger t ne) v =
    let (s1, s2, r, g1, g2) = woken_same sig1 sig2 p in
    record {
      one = with_line (omega (arith, s1)) refl v.one;
      two = with_line (omega (arith, s2)) refl v.two;
      count = omega (arith, v.count, r);
      ended1 = omega (arith, g1, v.ended1);
      ended2 = omega (arith, g2, v.ended2);
      known = inr (signo-IsTrigger t);
      printed = woken-Printed sig1 sig2 p w.shared.out v.printed;
    }
parent-Inv {sig1} {sig2} (parent_clear z) v =
    moved sig1 sig2 (await_trigger pausing) v (omega arith) (omega arith) refl (omega arith)
      (omega arith) v.known v.printed
parent-Inv {sig1} {sig2} parent_pause v =
    moved sig1 sig2 (await_trigger asleep) v (omega arith) (omega arith) refl (omega arith)
      (omega arith) v.known v.printed
parent-Inv {sig1} {sig2} {w} (parent_set ne) v =
    moved sig1 sig2 first_line v (omega arith) (omega arith) refl (omega arith) (omega arith)
      (now_known ne v.known) v.printed
parent-Inv {sig1} {sig2} {w} print_first v =
    spoke sig1 sig2 kill2 v (stop_test w.last_parent_sig) (refl, refl) (refl, refl, refl)
      (omega arith) refl
      (begins w.last_parent_sig w.shared.out (told {a = w.parent_tripped} refl v.known) v.printed)
parent-Inv send2 v = record {
  one = v.one;
  two = record {
    pending_le = omega arith;
    got_le = omega (arith, v.two.got_le);
    past_le = v.two.past_le;
    alive = v.two.alive;
    line = v.two.line;
  };
  count = v.count;
  ended1 = v.ended1;
  ended2 = v.ended2;
  known = v.known;
  printed = v.printed;
}
parent-Inv {sig1} {sig2} print2 v =
    spoke sig1 sig2 kill1 v (stop_test sig2) (refl, refl) (refl, refl, refl) (omega arith) refl
      (Begins-append (stop_test sig2 ∷ []) v.printed)
parent-Inv send1 v = record {
  one = record {
    pending_le = omega arith;
    got_le = omega (arith, v.one.got_le);
    past_le = v.one.past_le;
    alive = v.one.alive;
    line = v.one.line;
  };
  two = v.two;
  count = v.count;
  ended1 = v.ended1;
  ended2 = v.ended2;
  known = v.known;
  printed = v.printed;
}
parent-Inv {sig1} {sig2} print1 v =
    spoke sig1 sig2 wait1 v (stop_test sig1) (refl, refl) (refl, refl, refl) (omega arith) refl
      (Begins-append (stop_test sig1 ∷ []) v.printed)
parent-Inv {sig1} {sig2} {w} (wait_child1 g) v =
    moved sig1 sig2 wait2 v (omega arith) (omega arith) refl
      (omega (arith, gone-ended w.child1 v.one.alive g)) (omega arith) v.known v.printed
parent-Inv {sig1} {sig2} {w} (wait_child2 g) v =
    moved sig1 sig2 last_line v (omega arith) (omega arith) refl v.ended1
      (omega (arith, gone-ended w.child2 v.two.alive g)) v.known v.printed
parent-Inv {sig1} {sig2} {w} print_last v =
    spoke sig1 sig2 returned v parent_killed (refl, refl) (refl, refl, refl) (omega arith) refl
      (w.shared.out, refl, v.printed)
