-- ===== src/Process/Part1.antt =====
-- project1/part1: the programs that fork.
use xjtu_os_project.Prelude.{
  List, [], ◌∷◌, ℕ, pos, is_negative, is_zero, ◌+ℤ◌, ◌-ℤ◌, ◌*ℤ◌, if◌then◌else◌,
}
use xjtu_os_project.Process.{
  Code, fork, getpid, set_g, printf, wait, system, exec, exit, ◌>>=◌, ◌>>◌, fork_failed,
  perror_fork, perror_execl, child_pid, child_pid1, parent_pid, parent_pid1, child_g, parent_g,
  child_before_return, child_before_exit, parent_after_fork, parent_before_exit, child_process1,
  child_process, parent_process, system_call_running,
}

-- 1-1.c
unfoldable pub main_1_1 : Code
main_1_1 = do
  pid ← fork
  if is_negative pid
      then (do printf fork_failed; exit 1)
      else if is_zero pid
      then (do pid1 ← getpid; printf (child_pid pid); printf (child_pid1 pid1); exit 0)
      else (do pid1 ← getpid; printf (parent_pid pid); printf (parent_pid1 pid1); wait; exit 0)

-- 1-2.c: 1-1.c without `wait`.
unfoldable pub main_1_2 : Code
main_1_2 = do
  pid ← fork
  if is_negative pid
      then (do printf fork_failed; exit 1)
      else if is_zero pid
      then (do pid1 ← getpid; printf (child_pid pid); printf (child_pid1 pid1); exit 0)
      else (do pid1 ← getpid; printf (parent_pid pid); printf (parent_pid1 pid1); exit 0)

-- 1-3.c
unfoldable pub main_1_3 : Code
main_1_3 = do
  pid ← fork
  if is_zero pid
      then (do g ← set_g (λ g. g +ℤ pos 50); self ← getpid; printf (child_g self g); exit 0)
      else (do g ← set_g (λ g. g -ℤ pos 30); self ← getpid; printf (parent_g self g); wait; exit 0)

-- 1-4.c
unfoldable pub main_1_4 : Code
main_1_4 = do
  pid ← fork
  if is_zero pid
      then (do
        g ← set_g (λ g. g +ℤ pos 50)
        self ← getpid
        printf (child_before_return self g)
        g' ← set_g (λ g. g *ℤ pos 2)
        self' ← getpid
        printf (child_before_exit self' g')
        exit 0)
      else (do
        g ← set_g (λ g. g -ℤ pos 30)
        self ← getpid
        printf (parent_after_fork self g)
        wait
        g' ← set_g (λ g. g +ℤ pos 1)
        self' ← getpid
        printf (parent_before_exit self' g')
        exit 0)

-- "./system_call"
abbrev pub system_call_path : List ℕ
system_call_path =
    b'.' ∷ b'/' ∷ b's' ∷ b'y' ∷ b's' ∷ b't' ∷ b'e' ∷ b'm' ∷ b'_' ∷ b'c' ∷ b'a' ∷ b'l' ∷ b'l' ∷ []

-- 1-5-1.c
unfoldable pub main_1_5_1 : Code
main_1_5_1 = do
  pid ← fork
  if is_negative pid
      then (do printf perror_fork; exit 1)
      else if is_zero pid
      then (do
        self ← getpid
        printf (child_process1 self)
        ret ← system system_call_path
        self' ← getpid
        printf (child_process self')
        exit 0)
      else (do self ← getpid; printf (parent_process self); wait; exit 0)

-- system_call.c
unfoldable pub system_call_main : Code
system_call_main = do self ← getpid; printf (system_call_running self); exit 0

-- 1-5-2.c, where `execl` runs system_call.c.
unfoldable pub main_1_5_2 : Code
unfolding system_call_main
main_1_5_2 = do
  pid ← fork
  if is_negative pid
      then (do printf perror_fork; exit 1)
      else if is_zero pid
      then (do
        self ← getpid
        printf (child_process1 self)
        exec system_call_main
        printf perror_execl
        exit 127)
      else (do self ← getpid; printf (parent_process self); wait; exit 0)
