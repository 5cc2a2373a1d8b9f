-- ===== src/Process/Threads.antt =====
-- project1/part2: what the programs with a thread print, and exec_helper.c.
use mathlib.Core.List.{Memᴰ, append_assoc}
use xjtu_os_project.Prelude.{
  ◌++◌, ◌≡◌, some, pos, length, ap, ◌∙◌, ℤ, ◌+◌, ℕ, suc, ◌↔◌, refl, List, [], ◌∷◌, Bool, true,
  false,
}
use xjtu_os_project.Process.{
  absent, Host, Event, printed, ran, exited, at_main, step_first, step_second, perform,
  perform_thread, effect, perror_create, perror_execv, main_line, main_done, before_exec,
  calling_system, system_returned, after_join, helper_hello, helper_argv,
}
use xjtu_os_project.Process.Part2.{
  print_args, helper_main, echo_command, worker_exec, exec_in_thread, worker, system_in_thread,
}
use xjtu_os_project.Process.Ends.{ends, gather, EndsWith, ends-IsRight}

-- What step3_exec_in_thread.c prints.
abbrev pub traces_exec : Host → (made execs : Bool) → List Event
traces_exec h true true =
    printed h.pid (main_line h.pid h.pid)
    ∷ printed h.pid (before_exec h.pid h.tid)
    ∷ printed h.pid (helper_hello h.pid h.ppid 3)
    ∷ printed h.pid (
        helper_argv 0 (
          b'.' ∷ b'/' ∷ b'e' ∷ b'x' ∷ b'e' ∷ b'c' ∷ b'_' ∷ b'h' ∷ b'e' ∷ b'l' ∷ b'p' ∷ b'e' ∷ b'r'
          ∷ []))
    ∷ printed h.pid (helper_argv 1 (b'a' ∷ b'r' ∷ b'g' ∷ b'A' ∷ []))
    ∷ printed h.pid (helper_argv 2 (b'a' ∷ b'r' ∷ b'g' ∷ b'B' ∷ []))
    ∷ exited h.pid 0
    ∷ []
traces_exec h true false =
    printed h.pid (main_line h.pid h.pid)
    ∷ printed h.pid (before_exec h.pid h.tid)
    ∷ printed h.pid perror_execv
    ∷ printed h.pid after_join
    ∷ exited h.pid 0
    ∷ []
traces_exec h false e =
    printed h.pid (main_line h.pid h.pid) ∷ printed h.pid perror_create ∷ exited h.pid 1 ∷ []

-- The runs of project1/part2/step3_exec_in_thread.c in which nothing more can happen are those with
-- this trace, after the line of `main`: when the thread is created and `execv` succeeds, the line of the
-- thread and then the lines of exec_helper.c, with the number of the process and three arguments, and
-- the end with status 0, without the line that `main` has after `pthread_join`; when `execv` fails, the
-- line of the thread, the error, that line of `main` and the end with status 0; when the thread is not
-- created, the error and the end with status 1.
pub exec_in_thread_lem :
    (h : Host) (m e : Bool) (tr : List Event)
    → EndsWith h m e (at_main h exec_in_thread) tr ↔ Memᴰ tr (traces_exec h m e ∷ [])
unfolding ends gather step_first step_second perform perform_thread effect exec_in_thread
    worker_exec helper_main print_args
exec_in_thread_lem h true true tr = ends-IsRight 20 h true true (at_main h exec_in_thread) _ refl tr
exec_in_thread_lem h true false tr =
    ends-IsRight 20 h true false (at_main h exec_in_thread) _ refl tr
exec_in_thread_lem h false e tr = ends-IsRight 20 h false e (at_main h exec_in_thread) _ refl tr

-- What step3_system_in_thread.c prints.
abbrev pub traces_system : Host → (made execs : Bool) → List Event
traces_system h true e =
    printed h.pid (main_line h.pid h.pid)
    ∷ printed h.pid (calling_system h.pid h.tid)
    ∷ ran h.pid echo_command
    ∷ printed h.pid (system_returned h.pid h.tid h.rc)
    ∷ printed h.pid (main_done h.pid h.pid)
    ∷ exited h.pid 0
    ∷ []
traces_system h false e =
    printed h.pid (main_line h.pid h.pid) ∷ printed h.pid perror_create ∷ exited h.pid 1 ∷ []

-- Runs of project1/part2/step3_system_in_thread.c that have come to an end are exactly those with the
-- listed trace. Where the thread has been created, it says that it calls `system`, the command is run,
-- the thread prints what `system` returned, and only then comes the last line of `main`, which returns 0;
-- else `main` prints the error of `pthread_create` and returns 1.
pub system_in_thread_lem :
    (h : Host) (m e : Bool) (tr : List Event)
    → EndsWith h m e (at_main h system_in_thread) tr ↔ Memᴰ tr (traces_system h m e ∷ [])
unfolding ends gather step_first step_second perform perform_thread effect system_in_thread worker
system_in_thread_lem h true e tr = ends-IsRight 20 h true e (at_main h system_in_thread) _ refl tr
system_in_thread_lem h false e tr = ends-IsRight 20 h false e (at_main h system_in_thread) _ refl tr

-- The lines of the arguments, from the number `i` on.
abbrev pub argv_lines : ℕ → ℕ → List (List ℕ) → List Event
argv_lines pid i [] = []
argv_lines pid i (arg ∷ argv) = printed pid (helper_argv i arg) ∷ argv_lines pid (i + 1) argv

ends-print_args :
    (h : Host) (m e : Bool) (pid ppid tid i : ℕ) (g : ℤ) (argv : List (List ℕ)) (tr : List Event)
    → ends (suc (suc (length argv))) h m e (record {
      first = record { pid = pid; ppid = ppid; tid = tid; g = g; code = print_args i argv };
      second = absent;
      trace = tr;
    })
      ≡ some ((tr ++ (argv_lines pid i argv ++ exited pid 0 ∷ [])) ∷ [])
unfolding ends gather step_first step_second perform effect print_args
ends-print_args h m e pid ppid tid i g [] tr = refl
ends-print_args h m e pid ppid tid i g (arg ∷ argv) tr =
    let x = printed pid (helper_argv i arg) in
    ends-print_args h m e pid ppid tid (i + 1) g argv (tr ++ x ∷ [])
    ∙ ap (λ l. some (l ∷ []))
        (append_assoc tr (x ∷ []) (argv_lines pid (i + 1) argv ++ exited pid 0 ∷ []))

-- project1/part2/exec_helper.c has, with any arguments, one way to run until nothing more can happen: it
-- prints its number, that of its parent and the count of the arguments, then each argument with its place,
-- in their order, and ends with status 0.
pub helper_main_lem :
    (h : Host) (m e : Bool) (argv : List (List ℕ)) (tr : List Event)
    → EndsWith h m e (at_main h (helper_main argv)) tr
      ↔ Memᴰ tr (
          (printed h.pid (helper_hello h.pid h.ppid (length argv)) ∷ argv_lines h.pid 0 argv
            ++ exited h.pid 0 ∷ [])
          ∷ [])
unfolding ends gather step_first step_second perform effect helper_main
helper_main_lem h m e argv tr =
    ends-IsRight (suc (suc (suc (length argv)))) h m e (at_main h (helper_main argv)) _
      (ends-print_args h m e h.pid h.ppid h.pid 0 (pos 100) argv
        (printed h.pid (helper_hello h.pid h.ppid (length argv)) ∷ []))
      tr
