-- ===== src/Pipe/Contents.antt =====
-- project2/part2/pipe_communication.c: with the lock, the bytes of the two children do not mix.
use mathlib.Core.List.{append-nil, append_assoc}
use xjtu_os_project.Prelude.{
  ℕ, zero, suc, ◌+◌, ◌-◌, ◌<◌, ◌≤◌, ◌≡◌, ◌≢◌, ◌⊎◌, inl, inr, refl, ap, sym, ◌∙◌, Bool, true, false,
  List, [], ◌∷◌, ◌++◌, none, some, arith, replicate,
}
use xjtu_os_project.Pipe.{
  Child, locking, writing, sleeping, exited, Pipe, Move, lock, no_lock, write, done, unlock, exit,
  System, c1, c2, Step, first, second, Reach, start, later, received, Stats, count, stats_from,
  stats,
}
use xjtu_os_project.Pipe.Counts.{written, IsChild, received-all}

-- 1 while a child has the lock.
abbrev pub inside : Child → ℕ
inside locking = 0
inside (writing left) = 1
inside sleeping = 1
inside exited = 0

abbrev pub holders : Bool → ℕ
holders true = 1
holders false = 0

abbrev pub IsExited : Child → Type 0
IsExited exited = Unit
IsExited _ = ⊥

-- The bytes `c` of the child `p` stand in front of the bytes `d` of `q`, which has written none or came
-- when `p` had ended.
abbrev pub InOrder : ℕ → ℕ → ℕ → List ℕ → Child → Child → Type 0
InOrder n c d bytes p q =
    (bytes ≡ replicate (written n p) c ++ replicate (written n q) d)
    × ((written n q ≡ 0) ⊎ IsExited p)

pub record Locked (n c d : ℕ) (s : Pipe) (p q : Child) : Type 0 where
  pub held : inside p + inside q ≡ holders s.locked
  pub order : InOrder n c d s.bytes p q ⊎ InOrder n d c s.bytes q p
  pub child : IsChild n p
  pub other : IsChild n q

swap : {A B : Type 0} → A ⊎ B → B ⊎ A
swap (inl a) = inr a
swap (inr b) = inl b

pub Locked-swap : {n c d : ℕ} {s : Pipe} {p q : Child} → Locked n c d s p q → Locked n d c s q p
Locked-swap v = record {
  held = omega (arith, v.held);
  order = swap v.order;
  child = v.other;
  other = v.child;
}

replicate-snoc : (k c : ℕ) → replicate k c ++ c ∷ [] ≡ replicate (suc k) c
replicate-snoc zero c = refl
replicate-snoc (suc k) c = ap (◌∷◌ c) (replicate-snoc k c)

outside_of : (q : Child) (locked : Bool) → 1 + inside q ≡ holders locked → inside q ≡ 0
outside_of q true h = omega (arith, h)
outside_of q false h = absurd (omega (arith, h))

-- A move that writes nothing.
order_kept :
    (n c d : ℕ) (bytes : List ℕ) (p p' q : Child)
    → written n p ≡ written n p'
    → (IsExited p → ⊥)
    → InOrder n c d bytes p q ⊎ InOrder n d c bytes q p
    → InOrder n c d bytes p' q ⊎ InOrder n d c bytes q p'
order_kept n c d bytes p p' q e ne (inl (b, inl z)) = inl (rw (← e) b, inl z)
order_kept n c d bytes p p' q e ne (inl (b, inr x)) = absurd (ne x)
order_kept n c d bytes p p' q e ne (inr (b, inl z)) = inr (rw (← e) b, inl (rw (← e) z))
order_kept n c d bytes p p' q e ne (inr (b, inr x)) = inr (rw (← e) b, inr x)

one_more : (n left : ℕ) → suc left ≤ n → suc (n - suc left) ≡ n - left
one_more n left h = omega (arith, h)

-- The first of the two writes one more.
only_mine :
    (n c d left k : ℕ) (bytes : List ℕ)
    → suc left ≤ n
    → bytes ≡ replicate (n - suc left) c ++ replicate k d
    → k ≡ 0
    → bytes ++ c ∷ [] ≡ replicate (n - left) c ++ replicate k d
only_mine n c d left zero bytes h b z =
    ap (λ l. l ++ c ∷ []) (b ∙ append-nil (replicate (n - suc left) c))
    ∙ replicate-snoc (n - suc left) c
    ∙ ap (λ k. replicate k c) (one_more n left h)
    ∙ sym (append-nil (replicate (n - left) c))
only_mine n c d left (suc k) bytes h b z = absurd (omega arith)

-- The second of the two writes one more.
behind_yours :
    (n c d left k : ℕ) (bytes : List ℕ)
    → suc left ≤ n
    → bytes ≡ replicate k d ++ replicate (n - suc left) c
    → bytes ++ c ∷ [] ≡ replicate k d ++ replicate (n - left) c
behind_yours n c d left k bytes h b =
    ap (λ l. l ++ c ∷ []) b
    ∙ append_assoc (replicate k d) (replicate (n - suc left) c) (c ∷ [])
    ∙ ap (λ l. replicate k d ++ l)
        (replicate-snoc (n - suc left) c ∙ ap (λ k. replicate k c) (one_more n left h))

-- A byte that is written while the other child is outside.
order_written :
    (n c d left : ℕ) (bytes : List ℕ) (q : Child)
    → suc left ≤ n
    → inside q ≡ 0
    → InOrder n c d bytes (writing (suc left)) q ⊎ InOrder n d c bytes q (writing (suc left))
    → InOrder n c d (bytes ++ c ∷ []) (writing left) q
      ⊎ InOrder n d c (bytes ++ c ∷ []) q (writing left)
order_written n c d left bytes q h out (inl (b, inr x)) = absurd x
order_written n c d left bytes q h out (inl (b, inl z)) =
    inl (only_mine n c d left (written n q) bytes h b z, inl z)
order_written n c d left bytes locking h out (inr (b, z)) = inl (
  only_mine n c d left 0 bytes h (b ∙ sym (append-nil (replicate (n - suc left) c))) refl,
  inl refl,
)
order_written n c d left bytes (writing l) h out (inr (b, z)) = absurd (omega (arith, out))
order_written n c d left bytes sleeping h out (inr (b, z)) = absurd (omega (arith, out))
order_written n c d left bytes exited h out (inr (b, z)) =
    inr (behind_yours n c d left n bytes h b, inr tt)

Move-Locked :
    {n capacity c d : ℕ} {use_lock : Bool} {s s' : Pipe} {p p' : Child} (q : Child)
    → use_lock ≡ true
    → Move n capacity use_lock c s p s' p'
    → Locked n c d s p q
    → Locked n c d s' p' q
Move-Locked {n} {c} {d} {s} q on (lock u l) v = record {
  held = omega (arith, v.held, ap holders l);
  order = order_kept n c d s.bytes locking (writing n) q (omega arith) (λ x. x) v.order;
  child = omega arith;
  other = v.other;
}
Move-Locked q on (no_lock u) v = cc
Move-Locked {n} {c} {d} {s} q on (write {left} room) v = record {
  held = v.held;
  order = order_written n c d left s.bytes q v.child (outside_of q s.locked v.held) v.order;
  child = omega (arith, v.child);
  other = v.other;
}
Move-Locked {n} {c} {d} {s} q on (done {left} e) v = record {
  held = v.held;
  order = order_kept n c d s.bytes (writing left) sleeping q (omega (arith, e)) (λ x. x) v.order;
  child = tt;
  other = v.other;
}
Move-Locked {n} {c} {d} {s} q on (unlock u) v = record {
  held = omega (arith, outside_of q s.locked v.held);
  order = order_kept n c d s.bytes sleeping exited q refl (λ x. x) v.order;
  child = tt;
  other = v.other;
}
Move-Locked q on (exit u) v = cc

Step-Locked :
    {n capacity : ℕ} {use_lock : Bool} {s t : System}
    → use_lock ≡ true
    → Step n capacity use_lock s t
    → Locked n c1 c2 s.pipe s.child1 s.child2
    → Locked n c1 c2 t.pipe t.child1 t.child2
Step-Locked {s} on (first mv) v = Move-Locked s.child2 on mv v
Step-Locked {s} on (second mv) v = Locked-swap (Move-Locked s.child1 on mv (Locked-swap v))

pub Reach-Locked :
    {n capacity : ℕ} {use_lock : Bool} {s : System}
    → use_lock ≡ true
    → Reach n capacity use_lock s
    → Locked n c1 c2 s.pipe s.child1 s.child2
Reach-Locked on start = record { held = refl; order = inl (refl, inl refl); child = tt; other = tt }
Reach-Locked on (later r st) = Step-Locked on st (Reach-Locked on r)

-- A run of one byte makes no switch.
switches-replicate :
    (c k : ℕ) (s : Stats) → (stats_from (some c) s (replicate k c)).switches ≡ s.switches
unfolding stats_from
switches-replicate c zero s = refl
switches-replicate c (suc k) s = switches-replicate c k (count (some c) c s) ∙ ground arith

-- A run of one byte with a run of another one behind it makes one switch.
switches-append :
    (c d k m : ℕ) (s : Stats)
    → c ≢ d
    → (stats_from (some c) s (replicate k c ++ replicate (suc m) d)).switches ≡ s.switches + 1
unfolding stats_from
switches-append c d zero m s ne = switches-replicate d m (count (some c) d s) ∙ ground arith
switches-append c d (suc k) m s ne = switches-append c d k m (count (some c) c s) ne ∙ ground arith

two_runs :
    (c d n : ℕ) (bytes : List ℕ)
    → c ≢ d
    → 0 < n
    → bytes ≡ replicate n c ++ replicate n d
    → (stats bytes).switches ≡ 1
unfolding stats stats_from
two_runs c d zero bytes ne h b = absurd (omega arith)
two_runs c d (suc m) bytes ne h b =
    rw b
      (switches-append c d m m (count none c (record { count1 = 0; count2 = 0; switches = 0 })) ne)

-- With the lock, when both children have ended and each had a byte to write, the parent counts exactly
-- one place where the byte differs from the one before it.
pub pipe_ordered :
    {n capacity : ℕ} {use_lock : Bool} {s : System}
    → use_lock ≡ true
    → 0 < n
    → Reach n capacity use_lock s
    → s.child1 ≡ exited
    → s.child2 ≡ exited
    → (stats (received n s)).switches ≡ 1
pipe_ordered {n} {s} on h r e f = rw (received-all r) (in_order (Reach-Locked on r).order)
  where
    w1 : written n s.child1 ≡ n
    w1 = ap (written n) e

    w2 : written n s.child2 ≡ n
    w2 = ap (written n) f

    in_order :
        InOrder n c1 c2 s.pipe.bytes s.child1 s.child2
          ⊎ InOrder n c2 c1 s.pipe.bytes s.child2 s.child1
        → (stats s.pipe.bytes).switches ≡ 1
    in_order (inl (b, x)) = two_runs c1 c2 n s.pipe.bytes (omega arith) h (
        b
        ∙ ap (λ k. replicate k c1 ++ replicate (written n s.child2) c2) w1
        ∙ ap (λ k. replicate n c1 ++ replicate k c2) w2)
    in_order (inr (b, x)) = two_runs c2 c1 n s.pipe.bytes (omega arith) h (
        b
        ∙ ap (λ k. replicate k c2 ++ replicate (written n s.child1) c1) w2
        ∙ ap (λ k. replicate n c2 ++ replicate k c1) w1)
