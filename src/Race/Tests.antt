-- ===== src/Race/Tests.antt =====
-- project1/part2/step1_race.c: the theorem at a run of three rounds.
use xjtu_os_project.Prelude.{pos}
use xjtu_os_project.Race.Bounds.{IsWithin, race_bounds}
use xjtu_os_project.Race.Lost.{race_loses}

race_bounds_example : IsWithin 3 3 (pos 300)
race_bounds_example = race_bounds (race_loses 2)
