-- ===== src/Pipe/Progress.antt =====
-- project2/part2/pipe_communication.c: the children end, if the pipe has big child room for all bytes.
use xjtu_os_project.Prelude.{
  ℕ, zero, suc, ◌+◌, ◌*◌, ◌<◌, ◌≤◌, ◌≡◌, ◌≢◌, ◌⊎◌, inl, inr, refl, ap, Bool, true, false,
  Bool-cases, length, arith,
}
use xjtu_os_project.Pipe.{
  Child, locking, writing, sleeping, exited, Pipe, Move, lock, no_lock, write, done, unlock, exit,
  System, c1, c2, Reach,
}
use xjtu_os_project.Pipe.Counts.{written, IsChild, Reach-Inv, written-le}
use xjtu_os_project.Pipe.Contents.{inside, holders, Locked, Locked-swap, Reach-Locked}

-- The steps that are left to a child of `n` bytes.
abbrev pub left_to : ℕ → Child → ℕ
left_to n locking = n + 3
left_to n (writing left) = left + 2
left_to n sleeping = 1
left_to n exited = 0

-- A child can make a step, and then has fewer steps left.
pub record CanGo (n capacity : ℕ) (use_lock : Bool) (c : ℕ) (s : Pipe) (p : Child) : Type 0 where
  pub pipe : Pipe
  pub place : Child
  pub move : Move n capacity use_lock c s p pipe place
  pub closer : left_to n place < left_to n p

pub data CanMove (n capacity : ℕ) (use_lock : Bool) (s : System) : Type 0 where
  first_can : CanGo n capacity use_lock c1 s.pipe s.child1 → CanMove n capacity use_lock s
  second_can : CanGo n capacity use_lock c2 s.pipe s.child2 → CanMove n capacity use_lock s

go_on :
    (n capacity : ℕ) (use_lock : Bool) (c : ℕ) (s : Pipe) (p : Child)
    → 2 * n ≤ capacity
    → IsChild n p
    → length s.bytes ≤ written n p + n
    → (inside p ≡ 1) ⊎ ((use_lock ≡ false) ⊎ (s.locked ≡ false))
    → p ≢ exited
    → CanGo n capacity use_lock c s p
go_on n capacity use_lock c s locking big child room (inl h) ne = absurd (omega arith)
go_on n capacity use_lock c s locking big child room (inr (inl h)) ne = record {
  pipe = s;
  place = writing n;
  move = no_lock h;
  closer = omega arith;
}
go_on n capacity use_lock c s locking big child room (inr (inr h)) ne = elim (Bool-cases use_lock) [
  | inl on ↦ record { pipe = _; place = writing n; move = lock on h; closer = omega arith }
  | inr off ↦ record { pipe = s; place = writing n; move = no_lock off; closer = omega arith }
]
go_on n capacity use_lock c s (writing zero) big child room free ne = record {
  pipe = s;
  place = sleeping;
  move = done refl;
  closer = omega arith;
}
go_on n capacity use_lock c s (writing (suc left)) big child room free ne = record {
  pipe = _;
  place = writing left;
  move = write (omega (arith, big, child, room));
  closer = omega arith;
}
go_on n capacity use_lock c s sleeping big child room free ne = elim (Bool-cases use_lock) [
  | inl on ↦ record { pipe = _; place = exited; move = unlock on; closer = omega arith }
  | inr off ↦ record { pipe = s; place = exited; move = exit off; closer = omega arith }
]
go_on n capacity use_lock c s exited big child room free ne = absurd (ne refl)

one_inside : {A : Type 0} (a b : ℕ) → a + b ≡ 1 → ((a ≡ 1) ⊎ A) ⊎ (b ≡ 1)
one_inside (suc a) b h = inl (inl (omega (arith, h)))
one_inside zero b h = inr (omega (arith, h))

-- With the lock, a child that is not inside finds it free, or the other child is inside.
free_or :
    {n c d : ℕ} {s : Pipe} {p q : Child} (use_lock : Bool)
    → (use_lock ≡ true → Locked n c d s p q)
    → ((inside p ≡ 1) ⊎ ((use_lock ≡ false) ⊎ (s.locked ≡ false))) ⊎ (inside q ≡ 1)
free_or false v = inl (inr (inl refl))
free_or {s} {p} {q} true v = elim (Bool-cases s.locked) [
  | inl l ↦ one_inside (inside p) (inside q) (omega (arith, (v refl).held, ap holders l))
  | inr l ↦ inl (inr (inr l))
]

inside-exited : (p : Child) → inside p ≡ 1 → p ≢ exited
inside-exited p h e = omega (arith, ap inside e, h)

exited-or : (p : Child) → (p ≡ exited) ⊎ (p ≢ exited)
exited-or locking = inr (λ e. cc)
exited-or (writing left) = inr (λ e. cc)
exited-or sleeping = inr (λ e. cc)
exited-or exited = inl refl

-- If the pipe has room for the `2 * n` bytes, in every reachable state both children have ended, or one
-- of them can make a step, behind which it has fewer steps left.
pub pipe_ends :
    {n capacity : ℕ} {use_lock : Bool} {s : System}
    → 2 * n ≤ capacity
    → Reach n capacity use_lock s
    → ((s.child1 ≡ exited) × (s.child2 ≡ exited)) ⊎ CanMove n capacity use_lock s
pipe_ends {n} {capacity} {use_lock} {s} big r = elim (exited-or s.child1) [
  | inr ne ↦ elim (free_or use_lock (λ on. Reach-Locked on r)) [
    | inl free ↦ inr (first_can (can1 free ne))
    | inr in2 ↦ inr (second_can (can2 (inl in2) (inside-exited s.child2 in2)))
  ]
  | inl e ↦ elim (exited-or s.child2) [
    | inl f ↦ inl (e, f)
    | inr ne ↦ elim (free_or use_lock (λ on. Locked-swap (Reach-Locked on r))) [
      | inl free ↦ inr (second_can (can2 free ne))
      | inr in1 ↦ absurd (inside-exited s.child1 in1 e)
    ]
  ]
]
  where
    open (Reach-Inv r) use {all, child, other}

    can1 :
        (inside s.child1 ≡ 1) ⊎ ((use_lock ≡ false) ⊎ (s.pipe.locked ≡ false))
        → s.child1 ≢ exited
        → CanGo n capacity use_lock c1 s.pipe s.child1
    can1 =
        go_on n capacity use_lock c1 s.pipe s.child1 big child
          (omega (arith, all, written-le n s.child2))

    can2 :
        (inside s.child2 ≡ 1) ⊎ ((use_lock ≡ false) ⊎ (s.pipe.locked ≡ false))
        → s.child2 ≢ exited
        → CanGo n capacity use_lock c2 s.pipe s.child2
    can2 =
        go_on n capacity use_lock c2 s.pipe s.child2 big other
          (omega (arith, all, written-le n s.child1))
