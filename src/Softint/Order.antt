-- ===== src/Softint/Order.antt =====
-- project2/part1/softint.c: no child dies of a signal, and the order of what is printed.
use xjtu_os_project.Prelude.{ℕ, ◌+◌, ◌≤◌, ◌≡◌, ◌⊎◌, refl, ap, ◌∙◌, List, [], ◌∷◌, ◌++◌, arith}
use xjtu_os_project.Softint.{
  Child, starting, ready, reported, waiting, printing, ended, killed, Parent, reading,
  await_trigger, first_line, kill2, line2, kill1, line1, wait1, wait2, last_line, returned, Line,
  stop_test, child_killed, parent_killed, World,
}
use xjtu_os_project.Softint.Children.{wrote_byte, done, sent1, sent2, has_read, ChildInv}

-- The lines of the parent.
abbrev pub own : List Line → List Line
own [] = []
own (child_killed i ∷ out) = own out
own (stop_test sig ∷ out) = stop_test sig ∷ own out
own (parent_killed ∷ out) = parent_killed ∷ own out

own-append : (xs ys : List Line) → own (xs ++ ys) ≡ own xs ++ own ys
own-append [] ys = refl
own-append (child_killed i ∷ xs) ys = own-append xs ys
own-append (stop_test sig ∷ xs) ys = ap (◌∷◌ (stop_test sig)) (own-append xs ys)
own-append (parent_killed ∷ xs) ys = ap (◌∷◌ parent_killed) (own-append xs ys)

-- The number of a signal that the parent has a handler for.
abbrev pub IsTrigger : ℕ → Type 0
IsTrigger sig = (sig ≡ 2) ⊎ ((sig ≡ 3) ⊎ (sig ≡ 14))

-- The first line names a trigger, and `lines` are the further lines of the parent.
pub record Begins (out lines : List Line) : Type 0 where
  pub sig : ℕ
  pub is_trigger : IsTrigger sig
  pub rest : List Line
  pub is : out ≡ stop_test sig ∷ rest
  pub owns : own rest ≡ lines

-- What has been printed when the parent is at the place.
module _ (sig1 sig2 : ℕ) where
  abbrev pub Printed : Parent → List Line → Type 0
  Printed (reading k) out = out ≡ []
  Printed (await_trigger w) out = out ≡ []
  Printed first_line out = out ≡ []
  Printed kill2 out = Begins out []
  Printed line2 out = Begins out []
  Printed kill1 out = Begins out (stop_test sig2 ∷ [])
  Printed line1 out = Begins out (stop_test sig2 ∷ [])
  Printed wait1 out = Begins out (stop_test sig2 ∷ stop_test sig1 ∷ [])
  Printed wait2 out = Begins out (stop_test sig2 ∷ stop_test sig1 ∷ [])
  Printed last_line out = Begins out (stop_test sig2 ∷ stop_test sig1 ∷ [])
  Printed returned out =
      (body : List Line) × (out ≡ body ++ parent_killed ∷ [])
      × Begins body (stop_test sig2 ∷ stop_test sig1 ∷ [])

pub Begins-append :
    {out lines : List Line} (more : List Line)
    → Begins out lines
    → Begins (out ++ more) (lines ++ own more)
Begins-append more b = record {
  sig = b.sig;
  is_trigger = b.is_trigger;
  rest = b.rest ++ more;
  is = ap (λ l. l ++ more) b.is;
  owns = own-append b.rest more ∙ ap (λ l. l ++ own more) b.owns;
}

-- 1 when the child must have ended.
abbrev pub gone1 : Parent → ℕ
gone1 wait2 = 1
gone1 last_line = 1
gone1 returned = 1
gone1 _ = 0

abbrev pub gone2 : Parent → ℕ
gone2 last_line = 1
gone2 returned = 1
gone2 _ = 0

-- A line of a child changes nothing of that, once its signal has been sent and while it runs.
pub Printed-append :
    (sig1 sig2 : ℕ) (p : Parent) (out : List Line) (i : ℕ)
    → 1 ≤ sent2 p
    → gone2 p ≡ 0
    → Printed sig1 sig2 p out
    → Printed sig1 sig2 p (out ++ child_killed i ∷ [])
Printed-append sig1 sig2 line2 out i h g b = Begins-append (child_killed i ∷ []) b
Printed-append sig1 sig2 kill1 out i h g b = Begins-append (child_killed i ∷ []) b
Printed-append sig1 sig2 line1 out i h g b = Begins-append (child_killed i ∷ []) b
Printed-append sig1 sig2 wait1 out i h g b = Begins-append (child_killed i ∷ []) b
Printed-append sig1 sig2 wait2 out i h g b = Begins-append (child_killed i ∷ []) b
Printed-append sig1 sig2 last_line out i h g b = absurd (omega (arith, g))
Printed-append sig1 sig2 returned out i h g b = absurd (omega (arith, g))
Printed-append sig1 sig2 (reading k) out i h g b = absurd (omega (arith, h))
Printed-append sig1 sig2 (await_trigger w) out i h g b = absurd (omega (arith, h))
Printed-append sig1 sig2 first_line out i h g b = absurd (omega (arith, h))
Printed-append sig1 sig2 kill2 out i h g b = absurd (omega (arith, h))

-- 1 when the parent has left its wait and not yet said why.
abbrev pub tripping : Parent → ℕ
tripping first_line = 1
tripping _ = 0

pub record Inv (sig1 sig2 : ℕ) (w : World) (p : Parent) : Type 0 where
  pub one : ChildInv 1 (sent1 p) w.shared.out w.flags1 w.child1
  pub two : ChildInv 2 (sent2 p) w.shared.out w.flags2 w.child2
  pub count : has_read p + w.shared.bytes ≡ wrote_byte w.child1 + wrote_byte w.child2
  pub ended1 : gone1 p ≤ done w.child1
  pub ended2 : gone2 p ≤ done w.child2
  pub known : ((w.parent_tripped ≡ 0) × (tripping p ≡ 0)) ⊎ IsTrigger w.last_parent_sig
  pub printed : Printed sig1 sig2 p w.shared.out

pub wrote_byte-le : (c : Child) → wrote_byte c ≤ 1
wrote_byte-le starting = omega arith
wrote_byte-le ready = omega arith
wrote_byte-le reported = omega arith
wrote_byte-le (waiting w) = omega arith
wrote_byte-le printing = omega arith
wrote_byte-le ended = omega arith
wrote_byte-le killed = omega arith
