-- ===== src/Process/Tests.antt =====
-- project1: the theorems on processes and threads, at a host with made-up numbers.
use mathlib.Core.List.{Memᴰ}
use xjtu_os_project.Prelude.{◌↔◌, [], ◌∷◌, true, false, pos}
use xjtu_os_project.Process.{Host, at_main, exited, printed, parent_after_fork, parent_before_exit}
use xjtu_os_project.Process.Part1.{main_1_4, main_1_5_2}
use xjtu_os_project.Process.Part2.{exec_in_thread, system_in_thread}
use xjtu_os_project.Process.Ends.{EndsWith}
use xjtu_os_project.Process.Forks.{traces_1_4, traces_1_5_2, main_1_4_lem, main_1_5_2_lem}
use xjtu_os_project.Process.Threads.{
  traces_exec, exec_in_thread_lem, traces_system, system_in_thread_lem,
}

abbrev host : Host
host = record { pid = 100; ppid = 1; child = 100; tid = 101; errno = 10; rc = pos 0 }

main_1_4_lem_example :
    EndsWith host false true (at_main host main_1_4) (
      printed 100 (parent_after_fork 100 (pos 70))
      ∷ printed 100 (parent_before_exit 100 (pos 71))
      ∷ exited 100 0
      ∷ [])
    ↔ Memᴰ
        (printed 100 (parent_after_fork 100 (pos 70))
          ∷ printed 100 (parent_before_exit 100 (pos 71))
          ∷ exited 100 0
          ∷ [])
        (traces_1_4 host false true)
main_1_4_lem_example = main_1_4_lem host false true _

main_1_5_2_lem_example :
    EndsWith host true true (at_main host main_1_5_2) [] ↔ Memᴰ [] (traces_1_5_2 host true true)
main_1_5_2_lem_example = main_1_5_2_lem host true true []

exec_in_thread_lem_example :
    EndsWith host true true (at_main host exec_in_thread) (traces_exec host true true)
    ↔ Memᴰ (traces_exec host true true) (traces_exec host true true ∷ [])
exec_in_thread_lem_example = exec_in_thread_lem host true true (traces_exec host true true)

system_in_thread_lem_example :
    EndsWith host true true (at_main host system_in_thread) (traces_system host true true)
    ↔ Memᴰ (traces_system host true true) (traces_system host true true ∷ [])
system_in_thread_lem_example = system_in_thread_lem host true true (traces_system host true true)
