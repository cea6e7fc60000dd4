-- ===== src/Daemon/Stop/Keeps.antt =====
-- systemd/daemons/daemon.go, `stop`: one rule for each of its parts.
use docker_systemd.Base.{
  ℕ, zero, suc, ◌≡◌, refl, inl, inr, Bool, true, not, ◌||◌, List, [], ◌∷◌, Bytes, Option, none,
  some, ltb, ◌-◌,
}
use docker_systemd.Daemon.State.{Fault, Daemon, System, ran}
use docker_systemd.Definition.{Definition}
use docker_systemd.Daemon.Flow.{emit, tick}
use docker_systemd.Daemon.Stop.Acts.{
  IsAmong, IsStopLine, runs_line, terminates_own, kills_own, Stoppable, Stable-Stoppable,
  Keeps-seen, Keeps-seen_def,
}
use docker_systemd.Daemon.Host.{Host, Command, run_command, new_logger, time_now}
use docker_systemd.Daemon.Keeps.{
  Keeps, Keeps-pure, Keeps-return, Keeps-panic, Keeps-get, and_then, Keeps-if, Keeps-call, Stable,
  Keeps-any, Keeps-any_def, runs,
}
use docker_systemd.Daemon.Stop.{
  report, run_all, send_term, send_kill, all_exited, wait_exit, stop_enter, stop_commands,
  stop_finish, stop, stop_link, is_restarting,
}

module _ {P : System → Type 0} (host : Host) (name : Bytes) where
  run_command-Keeps :
      (cmd : Command)
      → Keeps P tick
      → Keeps P (emit (ran name cmd.line))
      → Keeps P (run_command host name cmd)
  unfolding run_command
  run_command-Keeps cmd ticks runs_it = and_then ticks λ at. and_then runs_it λ _. Keeps-pure _

  new_logger-Keeps : Keeps P tick → Keeps P (new_logger host name)
  unfolding new_logger
  new_logger-Keeps ticks = and_then ticks λ at. and_then (Keeps-get _) λ _. Keeps-pure _

  module _ (stable : Stable P name) where
    pub Keeps-run_command : (cmd : Command) → Keeps P (run_command host name cmd)
    Keeps-run_command cmd = run_command-Keeps cmd stable.ticks (stable.upkeep _ runs)

    pub Keeps-new_logger : Keeps P (new_logger host name)
    Keeps-new_logger = new_logger-Keeps stable.ticks

module _ {P : System → Type 0} {Seen : Daemon → Type 0} (host : Host) (name : Bytes)
    (stoppable : Stoppable P name Seen) where
  Keeps-time_now : Keeps P (time_now host)
  unfolding time_now
  Keeps-time_now = and_then stoppable.ticks λ at. and_then (Keeps-get _) λ _. Keeps-pure _

  Keeps-report :
      (wrap : Bytes → Fault → Fault) (line : Bytes) (e : Option Fault)
      → Keeps P (report host name wrap line e)
  Keeps-report wrap line none = Keeps-pure _
  Keeps-report wrap line (some e) =
      and_then (Keeps-any name) λ d. stoppable.changes _ (λ d. refl) (λ d. refl) (λ d. refl)

  -- The commands are among those of a definition that the service has been seen with.
  Keeps-run_all :
      (wrap : Bytes → Fault → Fault) (dir : Bytes) (d : Daemon) (def : Definition)
      (lines : List Bytes)
      → Seen d
      → d.def ≡ some def
      → ((line : Bytes) → IsAmong line lines → IsStopLine line def)
      → Keeps P (run_all host name wrap dir lines)
  unfolding run_all
  Keeps-run_all wrap dir d def [] seen there own = Keeps-pure _
  Keeps-run_all wrap dir d def (line ∷ lines) seen there own =
      and_then
        (run_command-Keeps host name _ stoppable.ticks
          (stoppable.acts d _ seen (runs_line there (own line (inl refl)))))
        λ e.
          and_then (Keeps-report wrap line e) λ _.
            Keeps-run_all wrap dir d def lines seen there (λ line' among. own line' (inr among))

  -- The processes are among those that the service has been seen with.
  Keeps-send_term :
      (d : Daemon) (cmds : List (Option ℕ))
      → Seen d
      → ((pid : ℕ) → IsAmong (some pid) cmds → IsAmong (some pid) d.cmds)
      → Keeps P (send_term host name cmds)
  unfolding send_term
  Keeps-send_term d [] seen own = Keeps-pure _
  Keeps-send_term d (none ∷ cmds) seen own =
      Keeps-send_term d cmds seen (λ pid among. own pid (inr among))
  Keeps-send_term d (some pid ∷ cmds) seen own =
      and_then (stoppable.acts d _ seen (terminates_own (own pid (inl refl))))
        λ _. Keeps-send_term d cmds seen (λ pid' among. own pid' (inr among))

  Keeps-send_kill :
      (d : Daemon) (cmds : List (Option ℕ))
      → Seen d
      → ((pid : ℕ) → IsAmong (some pid) cmds → IsAmong (some pid) d.cmds)
      → Keeps P (send_kill host name cmds)
  unfolding send_kill
  Keeps-send_kill d [] seen own = Keeps-pure _
  Keeps-send_kill d (none ∷ cmds) seen own =
      Keeps-send_kill d cmds seen (λ pid among. own pid (inr among))
  Keeps-send_kill d (some pid ∷ cmds) seen own =
      and_then (stoppable.acts d _ seen (kills_own (own pid (inl refl))))
        λ _. Keeps-send_kill d cmds seen (λ pid' among. own pid' (inr among))

  Keeps-all_exited : (cmds : List (Option ℕ)) → Keeps P (all_exited host name cmds)
  unfolding all_exited
  Keeps-all_exited [] = Keeps-pure _
  Keeps-all_exited (none ∷ cmds) = Keeps-panic
  Keeps-all_exited (some pid ∷ cmds) =
      and_then stoppable.ticks
        λ at. Keeps-if (host.alive pid at) (λ _. Keeps-pure _) (λ _. Keeps-all_exited cmds)

  Keeps-wait_exit : (rounds start tout : ℕ) → Keeps P (wait_exit host name rounds start tout)
  unfolding wait_exit
  Keeps-wait_exit zero start tout = Keeps-pure _
  Keeps-wait_exit (suc rounds) start tout = and_then (stoppable.sleeps _) λ _.
      and_then (Keeps-any name) λ d. and_then (Keeps-all_exited _) λ exited.
        and_then Keeps-time_now λ now.
          Keeps-if exited (λ _. Keeps-pure _)
            (λ _.
              Keeps-if (ltb tout (now - start)) (λ _. Keeps-pure _)
                (λ _. Keeps-wait_exit rounds start tout))

  Keeps-stop_enter : (b : Bool) → Keeps P (stop_enter host name b)
  unfolding stop_enter
  Keeps-stop_enter b = and_then (Keeps-any name) λ d.
      and_then (Keeps-if d.masked (λ _. Keeps-return _) (λ _. Keeps-pure _)) λ _.
        and_then
          (Keeps-if (not (is_restarting d.state) || b)
            (λ _. stoppable.changes _ (λ d. refl) (λ d. refl) (λ d. refl)) (λ _. Keeps-pure _))
          λ _. and_then (new_logger-Keeps host name stoppable.ticks) λ opened.
            Keeps-if opened (λ _. Keeps-pure _)
              (λ _.
                and_then (stoppable.changes _ (λ d. refl) (λ d. refl) (λ d. refl))
                  λ _. Keeps-return _)

  Keeps-stop_commands : Keeps P (stop_commands host name)
  unfolding stop_commands
  Keeps-stop_commands = Keeps-seen_def name stoppable λ d def seen there.
      and_then (Keeps-run_all _ _ d def def.exec_stop_pre seen there (λ line among. inl among)) λ _.
        and_then (Keeps-run_all _ _ d def def.exec_stop seen there (λ line among. inr (inl among)))
          λ _. Keeps-seen name stoppable λ d' seen'.
            and_then (Keeps-send_term d' d'.cmds seen' (λ pid among. among)) λ _.
              Keeps-run_all _ _ d def def.exec_stop_post seen there (λ line among. inr (inr among))

  Keeps-stop_finish : Keeps P (stop_finish host name)
  unfolding stop_finish
  Keeps-stop_finish = and_then (Keeps-any_def name) λ def. and_then Keeps-time_now λ start.
      and_then (Keeps-wait_exit _ _ _) λ exited. Keeps-seen name stoppable λ d seen.
        and_then
          (Keeps-if exited (λ _. Keeps-pure _)
            (λ _.
              and_then (Keeps-send_kill d d.cmds seen (λ pid among. among))
                λ _. stoppable.changes _ (λ d. refl) (λ d. refl) (λ d. refl)))
          λ _. and_then (stoppable.changes _ (λ d. refl) (λ d. refl) (λ d. refl)) λ _. Keeps-pure _

  pub stop-Keeps : (b : Bool) → Keeps P (stop host name b)
  unfolding stop
  stop-Keeps b =
      Keeps-call
        (and_then (Keeps-stop_enter b) λ _. and_then Keeps-stop_commands λ _. Keeps-stop_finish)

pub Keeps-stop :
    {P : System → Type 0} (host : Host) (name : Bytes)
    → Stable P name
    → (b : Bool) → Keeps P (stop host name b)
Keeps-stop host name stable b = stop-Keeps host name (Stable-Stoppable name stable) b

module _ {P : System → Type 0} (host : Host) (stable : (n : Bytes) → Stable P n) where
  pub Keeps-stop_link : (target : Option Bytes) → Keeps P (stop_link host target)
  unfolding stop_link
  Keeps-stop_link none = Keeps-pure _
  Keeps-stop_link (some n) = Keeps-stop host n (stable n) true
