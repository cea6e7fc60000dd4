-- ===== src/Procwait/Tests.antt =====
-- Runs of `Run`, `Wait` and the reaper, and the theorems at them.
use docker_systemd.Base.{◌≡◌, refl, false, some}
use docker_systemd.Procwait.{
  put, alive, zombie, reaped, forked, started, ended, not_found, got, World, set_job, set_child,
  set_waiter, at_phase, register, wait_cmd, release, wait,
}
use docker_systemd.Procwait.Steps.{
  Step, begins, forks, shows, looks, wakes, exits, reaps, releases, waits, returns, Steps, here,
  more, IsReachable, initial,
}
use docker_systemd.Procwait.Returns.{run-status, wait-returns, run-not_found}
use docker_systemd.Procwait.Lost.{has_returned, run-hangs}

-- Command 1 starts process 7, for which a goroutine 5 waits as well.
abbrev begun : World
begun = set_job 1 (register (initial.jobs 1)) initial

abbrev born_7 : World
born_7 = set_child 7 alive (set_job 1 (at_phase (forked 7) (begun.jobs 1)) begun)

abbrev shown : World
shown = set_job 1 (record (born_7.jobs 1) { phase = started 7; process = some 7 }) born_7

abbrev watched : World
watched = wait 5 7 shown

abbrev looked : World
looked = set_job 1 (wait_cmd 7 (watched.jobs 1)) watched

abbrev died : World
died = set_child 7 (zombie 3) looked

abbrev taken : World
taken = record died { children = put 7 (reaped 3) died.children; reaper = some (7, 3) }

abbrev freed : World
freed = release 7 3 taken

abbrev told : World
told = set_job 1 (at_phase (ended 7 (freed.jobs 1).ws) (freed.jobs 1)) freed

abbrev told_both : World
told_both = set_waiter 5 (got 7 (told.heap 0).ws) told

shown-IsReachable : IsReachable shown
shown-IsReachable = more (more (more here (begins 1 refl)) (forks 1 7 refl refl)) (shows 1 7 refl)

watched-IsReachable : IsReachable watched
watched-IsReachable = more shown-IsReachable (waits 5 7 refl)

freed-IsReachable : IsReachable freed
freed-IsReachable =
    more
      (more (more (more watched-IsReachable (looks 1 7 refl)) (exits 7 3 refl))
        (reaps 7 3 refl refl))
      (releases 7 3 refl)

told_both-IsReachable : IsReachable told_both
told_both-IsReachable =
    more (more freed-IsReachable (wakes 1 7 refl refl)) (returns 5 7 0 refl refl)

run-status_example : told_both.children 7 ≡ reaped 3
run-status_example = run-status told_both-IsReachable 1 7 3 refl

wait-returns_example : Step freed (set_waiter 5 (got 7 3) freed)
wait-returns_example = wait-returns freed-IsReachable 5 7 0 3 refl refl refl

run-not_found_example : (u : World) × Steps shown u × ((u.jobs 1).phase ≡ not_found 7)
run-not_found_example = run-not_found shown-IsReachable 1 7 0 refl refl refl refl

-- The process ends before `cmd.Process` shows it.
abbrev early : World
early = set_child 7 (zombie 0) born_7

abbrev early_taken : World
early_taken = record early { children = put 7 (reaped 0) early.children; reaper = some (7, 0) }

abbrev early_freed : World
early_freed = release 7 0 early_taken

abbrev early_shown : World
early_shown =
    set_job 1 (record (early_freed.jobs 1) { phase = started 7; process = some 7 }) early_freed

early-IsReachable : IsReachable early_freed
early-IsReachable =
    more
      (more (more (more (more here (begins 1 refl)) (forks 1 7 refl refl)) (exits 7 0 refl))
        (reaps 7 0 refl refl))
      (releases 7 0 refl)

run-hangs_example : has_returned (early_shown.jobs 1).phase ≡ false
run-hangs_example = run-hangs 1 7 0 early-IsReachable refl refl refl (more here (shows 1 7 refl))
