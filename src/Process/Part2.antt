-- ===== src/Process/Part2.antt =====
-- project1/part2: `exec` and `system` in a thread.
use xjtu_os_project.Prelude.{List, [], ◌∷◌, ℕ, ◌+◌, is_zero, if◌then◌else◌, length}
use xjtu_os_project.Process.{
  Code, pthread_create, getpid, getppid, gettid, printf, wait, system, exec, exit, return_null,
  ◌>>=◌, ◌>>◌, perror_create, perror_execv, main_line, main_done, before_exec, calling_system,
  system_returned, after_join, helper_hello, helper_argv,
}

-- The loop of exec_helper.c, over the arguments from `i` on.
unfoldable pub print_args : ℕ → List (List ℕ) → Code
print_args i [] = exit 0
print_args i (arg ∷ argv) = do printf (helper_argv i arg); print_args (i + 1) argv

-- exec_helper.c
unfoldable pub helper_main : List (List ℕ) → Code
unfolding print_args
helper_main argv = do
  self ← getpid
  parent ← getppid
  printf (helper_hello self parent (length argv))
  print_args 0 argv

-- "./exec_helper", "argA" and "argB"
abbrev pub helper_argv_list : List (List ℕ)
helper_argv_list =
    (b'.' ∷ b'/' ∷ b'e' ∷ b'x' ∷ b'e' ∷ b'c' ∷ b'_' ∷ b'h' ∷ b'e' ∷ b'l' ∷ b'p' ∷ b'e' ∷ b'r' ∷ [])
    ∷ (b'a' ∷ b'r' ∷ b'g' ∷ b'A' ∷ [])
    ∷ (b'a' ∷ b'r' ∷ b'g' ∷ b'B' ∷ [])
    ∷ []

-- step3_exec_in_thread.c, where `execv` runs exec_helper.c.
unfoldable pub worker_exec : Code
unfolding helper_main
worker_exec = do
  self ← getpid
  tid ← gettid
  printf (before_exec self tid)
  exec (helper_main helper_argv_list)
  printf perror_execv
  return_null

unfoldable pub exec_in_thread : Code
unfolding worker_exec
exec_in_thread = do
  self ← getpid
  tid ← gettid
  printf (main_line self tid)
  rc ← pthread_create worker_exec
  if is_zero rc then (do wait; printf after_join; exit 0) else (do printf perror_create; exit 1)

-- "echo [from system child]; sleep 1; echo [system child done]"
abbrev pub echo_command : List ℕ
echo_command =
    b'e' ∷ b'c' ∷ b'h' ∷ b'o' ∷ b' ' ∷ b'[' ∷ b'f' ∷ b'r' ∷ b'o' ∷ b'm' ∷ b' ' ∷ b's' ∷ b'y' ∷ b's'
    ∷ b't' ∷ b'e' ∷ b'm' ∷ b' ' ∷ b'c' ∷ b'h' ∷ b'i' ∷ b'l' ∷ b'd' ∷ b']' ∷ b';' ∷ b' ' ∷ b's'
    ∷ b'l' ∷ b'e' ∷ b'e' ∷ b'p' ∷ b' ' ∷ b'1' ∷ b';' ∷ b' ' ∷ b'e' ∷ b'c' ∷ b'h' ∷ b'o' ∷ b' '
    ∷ b'[' ∷ b's' ∷ b'y' ∷ b's' ∷ b't' ∷ b'e' ∷ b'm' ∷ b' ' ∷ b'c' ∷ b'h' ∷ b'i' ∷ b'l' ∷ b'd'
    ∷ b' ' ∷ b'd' ∷ b'o' ∷ b'n' ∷ b'e' ∷ b']' ∷ []

-- step3_system_in_thread.c
unfoldable pub worker : Code
worker = do
  self ← getpid
  tid ← gettid
  printf (calling_system self tid)
  rc ← system echo_command
  self' ← getpid
  tid' ← gettid
  printf (system_returned self' tid' rc)
  return_null

unfoldable pub system_in_thread : Code
unfolding worker
system_in_thread = do
  self ← getpid
  tid ← gettid
  printf (main_line self tid)
  rc ← pthread_create worker
  if is_zero rc
      then (do wait; self' ← getpid; tid' ← gettid; printf (main_done self' tid'); exit 0)
      else (do printf perror_create; exit 1)
