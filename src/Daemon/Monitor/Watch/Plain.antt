-- ===== src/Daemon/Monitor/Watch/Plain.antt =====
-- systemd/daemons/daemon.go, `monitorCmds` of a service whose processes do not fork.
use docker_systemd.Base.{
  ℕ, ◌+◌, ◌≡◌, refl, ap, arith, false, List, [], ◌∷◌, map, Bytes, some, append-nil, length,
}
use docker_systemd.Definition.{Definition}
use docker_systemd.Daemon.State.{Daemon, System, find, update}
use docker_systemd.Daemon.Flow.{next, pure, ◌>>=◌, read, modify, tick}
use docker_systemd.Daemon.Host.{Host, Launch}
use docker_systemd.Daemon.Monitor.Watch.{
  Watched, set_pids, set_cmds, forking_types, wait_for, wait_cmds, watch,
}
use docker_systemd.Daemon.Monitor.Watch.Crash.{find_changed}

-- The answers of `Wait` for the pids, from the call `at` on.
unfoldable pub answers_of : Watched → ℕ → List ℕ → List Launch
answers_of sys at [] = []
answers_of sys at (pid ∷ pids) = sys.wait_pid pid at ∷ answers_of sys (at + 1) pids

module _ (host : Host) (sys : Watched) (name : Bytes) where
  wait_cmds_all :
      (pids : List ℕ) (s : System)
      → wait_cmds host sys name (map some pids) s
        ≡ next (answers_of sys s.clock pids, pids) (record s { clock = s.clock + length pids })
  unfolding wait_cmds wait_for ◌>>=◌ tick pure answers_of
  wait_cmds_all [] s =
      let same : s.clock ≡ s.clock + 0 = omega arith in
      ap (λ n. next ([], []) (record s { clock = n })) same
  wait_cmds_all (pid ∷ pids) s =
      let same : s.clock + 1 + length pids ≡ s.clock + length (pid ∷ pids) = omega arith in
      rw (wait_cmds_all pids (record s { clock = s.clock + 1 })) (
        ap (λ n. next (answers_of sys s.clock (pid ∷ pids), pid ∷ pids) (record s { clock = n }))
          same)

  -- For a service of another type than those that fork, of which every command has started:
  -- `monitorCmds` waits for each process in turn, and goes on with their answers_of in that order; the
  -- service then has neither commands nor pids.
  pub watch_plain :
      (rounds : ℕ) (pids : List ℕ) (s : System) (d : Daemon) (def : Definition)
      → find name s.list ≡ some d
      → d.cmds ≡ map some pids
      → d.def ≡ some def
      → sys.has_string forking_types def.service_type ≡ false
      → watch host sys name rounds s
        ≡ next (answers_of sys s.clock pids) (record s {
          list = update name (set_cmds []) (update name (set_pids []) s.list);
          clock = s.clock + length pids;
        })
  unfolding watch ◌>>=◌ modify read pure
  watch_plain rounds pids s d def here cmds has plain =
      let changed : find name (update name (set_pids []) s.list) ≡ some (set_pids [] d) =
        find_changed name (set_pids []) s d here in
      rw (changed, cmds, wait_cmds_all pids)
        (rw (has, plain, append-nil (answers_of sys s.clock pids)) refl)
