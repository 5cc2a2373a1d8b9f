-- ===== src/Process/Forks.antt =====
-- project1/part1: what the programs that fork print, and when they end.
use mathlib.Core.List
use mathlib.Core.List.{Memᴰ}
use mathlib.Core.List.Memᴰ.{head, tail}
use xjtu_os_project.Prelude.{suc, ◌↔◌, refl, List, [], ◌∷◌, ◌++◌, Bool, true, false, pos}
use xjtu_os_project.Process.{
  Host, Event, printed, ran, exited, at_main, step_first, step_second, perform, perform_child,
  effect, fork_failed, perror_fork, perror_execl, child_pid, child_pid1, parent_pid, parent_pid1,
  child_g, parent_g, child_before_return, child_before_exit, parent_after_fork, parent_before_exit,
  child_process1, child_process, parent_process, system_call_running,
}
use xjtu_os_project.Process.Part1.{
  main_1_1, main_1_2, main_1_3, main_1_4, system_call_path, main_1_5_1, system_call_main,
  main_1_5_2,
}
use xjtu_os_project.Process.Ends.{ends, gather, EndsWith, ends-IsRight}

-- The ways to run two tasks next to each other.
unfoldable pub interleavings {ℓ} : {A : Type ℓ} → List A → List A → List (List A)
interleavings [] ys = ys ∷ []
interleavings (x ∷ xs) [] = (x ∷ xs) ∷ []
interleavings (x ∷ xs) (y ∷ ys) =
    List.map (◌∷◌ x) (interleavings xs (y ∷ ys)) ++ List.map (◌∷◌ y) (interleavings (x ∷ xs) ys)

-- With this at the end of each.
abbrev pub followed_by {ℓ} : {A : Type ℓ} → List A → List (List A) → List (List A)
followed_by end = List.map (λ l. l ++ end)

listed_once {ℓ} :
    {A : Type ℓ} {x a b : A} {l : List A} → Memᴰ x (a ∷ b ∷ b ∷ l) → Memᴰ x (a ∷ b ∷ l)
listed_once (head e) = head e
listed_once (tail (head e)) = tail (head e)
listed_once (tail (tail k)) = tail k

listed_twice {ℓ} :
    {A : Type ℓ} {x a b : A} {l : List A} → Memᴰ x (a ∷ b ∷ l) → Memᴰ x (a ∷ b ∷ b ∷ l)
listed_twice (head e) = head e
listed_twice (tail k) = tail (tail k)

-- What 1-1.c prints.
abbrev pub traces_1_1 : Host → (made execs : Bool) → List (List Event)
traces_1_1 h true e = followed_by (exited h.pid 0 ∷ []) (
    interleavings
      (printed h.pid (parent_pid (pos (suc h.child))) ∷ printed h.pid (parent_pid1 h.pid) ∷ [])
      (printed (suc h.child) (child_pid (pos 0))
        ∷ printed (suc h.child) (child_pid1 (suc h.child))
        ∷ exited (suc h.child) 0
        ∷ []))
traces_1_1 h false e = (printed h.pid fork_failed ∷ exited h.pid 1 ∷ []) ∷ []

-- The runs of project1/part1/1-1.c in which nothing more can happen are those with these traces: when
-- `fork` succeeds, the two lines of the parent, with the number of the child and its own, next to the
-- two lines of the child, with 0 and its own number, and the end of the child, in any interleaving, and
-- then the end of the parent with status 0; when `fork` fails, the error line and the end with status 1.
pub main_1_1_lem :
    (h : Host) (m e : Bool) (tr : List Event)
    → EndsWith h m e (at_main h main_1_1) tr ↔ Memᴰ tr (traces_1_1 h m e)
unfolding interleavings ends gather step_first step_second perform perform_child effect main_1_1
main_1_1_lem h true e tr = ends-IsRight 12 h true e (at_main h main_1_1) _ refl tr
main_1_1_lem h false e tr = ends-IsRight 12 h false e (at_main h main_1_1) _ refl tr

-- What 1-2.c prints.
abbrev pub traces_1_2 : Host → (made execs : Bool) → List (List Event)
traces_1_2 h true e =
    interleavings
      (printed h.pid (parent_pid (pos (suc h.child)))
        ∷ printed h.pid (parent_pid1 h.pid)
        ∷ exited h.pid 0
        ∷ [])
      (printed (suc h.child) (child_pid (pos 0))
        ∷ printed (suc h.child) (child_pid1 (suc h.child))
        ∷ exited (suc h.child) 0
        ∷ [])
traces_1_2 h false e = (printed h.pid fork_failed ∷ exited h.pid 1 ∷ []) ∷ []

-- The same for project1/part1/1-2.c, which does not wait: the end of the parent too stands anywhere next
-- to what the child does.
pub main_1_2_lem :
    (h : Host) (m e : Bool) (tr : List Event)
    → EndsWith h m e (at_main h main_1_2) tr ↔ Memᴰ tr (traces_1_2 h m e)
unfolding interleavings ends gather step_first step_second perform perform_child effect main_1_2
main_1_2_lem h true e tr = ends-IsRight 12 h true e (at_main h main_1_2) _ refl tr
main_1_2_lem h false e tr = ends-IsRight 12 h false e (at_main h main_1_2) _ refl tr

-- What 1-3.c prints.
abbrev pub traces_1_3 : Host → (made execs : Bool) → List (List Event)
traces_1_3 h true e = followed_by (exited h.pid 0 ∷ []) (
    interleavings (printed h.pid (parent_g h.pid (pos 70)) ∷ [])
      (printed (suc h.child) (child_g (suc h.child) (pos 150)) ∷ exited (suc h.child) 0 ∷ []))
traces_1_3 h false e = (printed h.pid (parent_g h.pid (pos 70)) ∷ exited h.pid 0 ∷ []) ∷ []

-- The same for project1/part1/1-3.c: the child has 150 in its `g` and the parent has 70 in its own, in
-- either order. When `fork` fails, which the program does not test, it prints the line of the parent.
pub main_1_3_lem :
    (h : Host) (m e : Bool) (tr : List Event)
    → EndsWith h m e (at_main h main_1_3) tr ↔ Memᴰ tr (traces_1_3 h m e)
unfolding interleavings ends gather step_first step_second perform perform_child effect main_1_3
main_1_3_lem h true e tr = ends-IsRight 12 h true e (at_main h main_1_3) _ refl tr
main_1_3_lem h false e tr = ends-IsRight 12 h false e (at_main h main_1_3) _ refl tr

-- What 1-4.c prints.
abbrev pub traces_1_4 : Host → (made execs : Bool) → List (List Event)
traces_1_4 h true e =
    followed_by (printed h.pid (parent_before_exit h.pid (pos 71)) ∷ exited h.pid 0 ∷ []) (
      interleavings (printed h.pid (parent_after_fork h.pid (pos 70)) ∷ []) (
        printed (suc h.child) (child_before_return (suc h.child) (pos 150))
        ∷ printed (suc h.child) (child_before_exit (suc h.child) (pos 300))
        ∷ exited (suc h.child) 0
        ∷ []))
traces_1_4 h false e =
    (printed h.pid (parent_after_fork h.pid (pos 70))
      ∷ printed h.pid (parent_before_exit h.pid (pos 71))
      ∷ exited h.pid 0
      ∷ [])
    ∷ []

-- The runs of project1/part1/1-4.c in which nothing more can happen are those with these traces: when
-- `fork` succeeds, the line of the parent with 70 next to the lines of the child with 150 and 300 and
-- its end, in any interleaving, then the line of the parent with 71, and then its end; when `fork`
-- fails, the two lines of the parent and its end with status 0, as the program does not test for it.
pub main_1_4_lem :
    (h : Host) (m e : Bool) (tr : List Event)
    → EndsWith h m e (at_main h main_1_4) tr ↔ Memᴰ tr (traces_1_4 h m e)
unfolding interleavings ends gather step_first step_second perform perform_child effect main_1_4
main_1_4_lem h true e tr = ends-IsRight 12 h true e (at_main h main_1_4) _ refl tr
main_1_4_lem h false e tr = ends-IsRight 12 h false e (at_main h main_1_4) _ refl tr

-- What 1-5-1.c prints.
abbrev pub traces_1_5_1 : Host → (made execs : Bool) → List (List Event)
traces_1_5_1 h true e = followed_by (exited h.pid 0 ∷ []) (
    interleavings (printed h.pid (parent_process h.pid) ∷ []) (
      printed (suc h.child) (child_process1 (suc h.child))
      ∷ ran (suc h.child) system_call_path
      ∷ printed (suc h.child) (child_process (suc h.child))
      ∷ exited (suc h.child) 0
      ∷ []))
traces_1_5_1 h false e = (printed h.pid perror_fork ∷ exited h.pid 1 ∷ []) ∷ []

-- The same for project1/part1/1-5-1.c: the child goes on with its second line when `system` has
-- returned, and the parent ends after it.
pub main_1_5_1_lem :
    (h : Host) (m e : Bool) (tr : List Event)
    → EndsWith h m e (at_main h main_1_5_1) tr ↔ Memᴰ tr (traces_1_5_1 h m e)
unfolding interleavings ends gather step_first step_second perform perform_child effect main_1_5_1
main_1_5_1_lem h true e tr = ends-IsRight 12 h true e (at_main h main_1_5_1) _ refl tr
main_1_5_1_lem h false e tr = ends-IsRight 12 h false e (at_main h main_1_5_1) _ refl tr

-- What 1-5-2.c prints.
abbrev pub traces_1_5_2 : Host → (made execs : Bool) → List (List Event)
traces_1_5_2 h true true = followed_by (exited h.pid 0 ∷ []) (
    interleavings (printed h.pid (parent_process h.pid) ∷ []) (
      printed (suc h.child) (child_process1 (suc h.child))
      ∷ printed (suc h.child) (system_call_running (suc h.child))
      ∷ exited (suc h.child) 0
      ∷ []))
traces_1_5_2 h true false = followed_by (exited h.pid 0 ∷ []) (
    interleavings (printed h.pid (parent_process h.pid) ∷ []) (
      printed (suc h.child) (child_process1 (suc h.child))
      ∷ printed (suc h.child) (perror_execl)
      ∷ exited (suc h.child) 127
      ∷ []))
traces_1_5_2 h false e = (printed h.pid perror_fork ∷ exited h.pid 1 ∷ []) ∷ []

-- The runs of project1/part1/1-5-2.c in which nothing more can happen are those with these traces: the
-- line of the parent stands next to what the child does, in any interleaving, and the end of the parent
-- with status 0 comes last. When `execl` succeeds, the child prints its line, then system_call.c prints
-- the same number and ends with status 0, and nothing of the child comes after it; when it fails, the
-- child prints the error and ends with status 127. When `fork` fails, the error line and the end with
-- status 1.
pub main_1_5_2_lem :
    (h : Host) (m e : Bool) (tr : List Event)
    → EndsWith h m e (at_main h main_1_5_2) tr ↔ Memᴰ tr (traces_1_5_2 h m e)
unfolding interleavings ends gather step_first step_second perform perform_child effect main_1_5_2
    system_call_main
main_1_5_2_lem h true true tr =
    let (to, from) = ends-IsRight 12 h true true (at_main h main_1_5_2) _ refl tr in
    (λ r. listed_once (to r), λ k. from (listed_twice k))
main_1_5_2_lem h true false tr = ends-IsRight 12 h true false (at_main h main_1_5_2) _ refl tr
main_1_5_2_lem h false e tr = ends-IsRight 12 h false e (at_main h main_1_5_2) _ refl tr
