-- ===== src/Process/Ends.antt =====
-- project1: all the ways in which a system can run, found by following every step.
use mathlib.Core.Option
use mathlib.Core.List.{Memᴰ}
use mathlib.Core.List.Memᴰ
use xjtu_os_project.Prelude.{
  ℕ, zero, suc, ◌≡◌, ◌↔◌, ◌⊎◌, inl, inr, refl, sym, List, [], ◌∷◌, ◌++◌, Bool, Option, none, some,
}
use xjtu_os_project.Process.{
  Host, System, Event, step_first, step_second, by_first, by_second, Runs, start, step, IsOver,
}

-- The traces of a system that moves to the first, to the second, to both or to none.
unfoldable pub gather :
    Option (Option (List (List Event)))
    → Option (Option (List (List Event)))
    → List Event
    → Option (List (List Event))
gather none none tr = some (tr ∷ [])
gather (some a) none tr = a
gather none (some b) tr = b
gather (some (some a)) (some (some b)) tr = some (a ++ b)
gather (some _) (some _) tr = none

-- The traces of all runs that end within `n` steps, if all runs do.
unfoldable pub ends : ℕ → Host → (made execs : Bool) → System → Option (List (List Event))
unfolding gather
ends zero h m e s = none
ends (suc n) h m e s =
    gather (Option.map (ends n h m e) (step_first h m e s))
      (Option.map (ends n h m e) (step_second h e s)) s.trace

-- A run ends with the trace.
abbrev pub EndsWith : Host → (made execs : Bool) → System → List Event → Type 0
EndsWith h m e s tr = (t : System) × (Runs h m e s t) × (IsOver h m e t) × (t.trace ≡ tr)

-- A run that ends with the trace, after a step if there is one.
abbrev After : Host → (made execs : Bool) → Option System → List Event → Type 0
After h m e none tr = ⊥
After h m e (some t) tr = EndsWith h m e t tr

module _ (h : Host) (m e : Bool) (s : System) (tr : List Event) where
  run_cases :
      EndsWith h m e s tr
      → (IsOver h m e s × (tr ≡ s.trace))
        ⊎ (After h m e (step_first h m e s) tr ⊎ After h m e (step_second h e s) tr)
  run_cases (t, start, o, q) = inl (o, sym q)
  run_cases (t, step (by_first x) r, o, q) = inr (inl (rw x (t, r, o, q)))
  run_cases (t, step (by_second x) r, o, q) = inr (inr (rw x (t, r, o, q)))

  prepend_first :
      (x : Option System) → step_first h m e s ≡ x → After h m e x tr → EndsWith h m e s tr
  prepend_first none f a = elim a [ ]
  prepend_first (some t) f (u, r, o, q) = (u, step (by_first f) r, o, q)

  prepend_second :
      (y : Option System) → step_second h e s ≡ y → After h m e y tr → EndsWith h m e s tr
  prepend_second none g a = elim a [ ]
  prepend_second (some t) g (u, r, o, q) = (u, step (by_second g) r, o, q)

gather_both :
    (a b : Option (List (List Event))) (tr : List Event) {ls : List (List Event)}
    → gather (some a) (some b) tr ≡ some ls
    → (la : List (List Event)) × (lb : List (List Event)) × (a ≡ some la)
      × (b ≡ some lb)
      × (la ++ lb ≡ ls)
unfolding gather
gather_both (some a) (some b) tr q = (a, b, refl, refl, Option.some-injective _ _ q)
gather_both none b tr q = absurd (Option.none-ne-some _ q)
gather_both (some a) none tr q = absurd (Option.none-ne-some _ q)

-- The traces that `ends` finds are right for the systems after a step.
abbrev pub IsRight : ℕ → Host → (made execs : Bool) → Type 0
IsRight n h m e =
    (s : System) (ls : List (List Event))
    → ends n h m e s ≡ some ls
    → (tr : List Event) → EndsWith h m e s tr ↔ Memᴰ tr ls

module _ (n : ℕ) (h : Host) (m e : Bool) (right : IsRight n h m e) (s : System)
    (tr : List Event) where
  listed :
      (x y : Option System) (ls : List (List Event))
      → gather (Option.map (ends n h m e) x) (Option.map (ends n h m e) y) s.trace ≡ some ls
      → (((x ≡ none) × (y ≡ none)) × (tr ≡ s.trace)) ⊎ (After h m e x tr ⊎ After h m e y tr)
      → Memᴰ tr ls
  unfolding gather
  listed none none ls q (inl (o, p)) = rw (← Option.some-injective _ _ q) (Memᴰ.head p)
  listed none (some u) ls q (inl (o, p)) = absurd (Option.some-ne-none _ o.1)
  listed (some t) y ls q (inl (o, p)) = absurd (Option.some-ne-none _ o.0)
  listed none none ls q (inr (inl a)) = elim a [ ]
  listed none none ls q (inr (inr b)) = elim b [ ]
  listed none (some u) ls q (inr (inl a)) = elim a [ ]
  listed (some t) none ls q (inr (inr b)) = elim b [ ]
  listed (some t) none ls q (inr (inl a)) = (right t ls q tr).0 a
  listed none (some u) ls q (inr (inr b)) = (right u ls q tr).0 b
  listed (some t) (some u) ls q (inr ab) =
      let (la, lb, qa, qb, qq) = gather_both (ends n h m e t) (ends n h m e u) s.trace q in
      rw (← qq) (elim ab [
        | inl a ↦ Memᴰ.append_left lb ((right t la qa tr).0 a)
        | inr b ↦ Memᴰ.append_right la ((right u lb qb tr).0 b)
      ])

  found :
      (x y : Option System) (ls : List (List Event))
      → step_first h m e s ≡ x
      → step_second h e s ≡ y
      → gather (Option.map (ends n h m e) x) (Option.map (ends n h m e) y) s.trace ≡ some ls
      → Memᴰ tr ls
      → EndsWith h m e s tr
  unfolding gather
  found none none ls f g q k =
      (s, start, (f, g), sym (Memᴰ.eq_of_singleton (rw (Option.some-injective _ _ q) k)))
  found (some t) none ls f g q k = prepend_first h m e s tr (some t) f ((right t ls q tr).1 k)
  found none (some u) ls f g q k = prepend_second h m e s tr (some u) g ((right u ls q tr).1 k)
  found (some t) (some u) ls f g q k =
      let (la, lb, qa, qb, qq) = gather_both (ends n h m e t) (ends n h m e u) s.trace q in
      elim (Memᴰ.append_cases la (rw qq k)) [
        | inl a ↦ prepend_first h m e s tr (some t) f ((right t la qa tr).1 a)
        | inr b ↦ prepend_second h m e s tr (some u) g ((right u lb qb tr).1 b)
      ]

pub ends-IsRight : (n : ℕ) (h : Host) (m e : Bool) → IsRight n h m e
unfolding ends
ends-IsRight zero h m e s ls q tr = absurd (Option.none-ne-some _ q)
ends-IsRight (suc n) h m e s ls q tr = (
  λ r.
      listed n h m e (ends-IsRight n h m e) s tr (step_first h m e s) (step_second h e s) ls q
        (run_cases h m e s tr r),
  found n h m e (ends-IsRight n h m e) s tr (step_first h m e s) (step_second h e s) ls refl refl q,
)
