-- ===== src/Lib.antt =====
-- docker-systemd runs services in a container the way systemd does. The program is one binary: as
-- `systemd` it is the daemon (systemd/), as `systemctl` it sends a command over a socket and prints
-- the reply (systemctl/). The daemon reads unit files into definitions (systemd/daemons/unit.go),
-- starts and stops their services (systemd/daemons/daemon.go), and runs their commands through
-- procwait/.
--
-- The files, and the code each models:
--   Base, Base/Tests, Base/Lists   shared names and lemmas; Text, Text/Laws: Go's `strings` functions
--     that the code uses, on bytes
--   Definition      the type `daemondef` (systemd/daemons/daemon.go)
--   UnitFile        `loadUnitFile` (systemd/daemons/unit.go): `Reader` is what the loop carries from
--     line to line, `read_line` one round. UnitFile/Keys holds the switches on the key, UnitFile/Line
--     `parseUnitLine`
--   Duration        `parseSystemdDuration`, `leadingInt`, `leadingFraction`, `unitMap` (same file)
--   Wire, Wire/Reply   the message of a command and its reply (systemctl/main.go, systemd/main.go)
--   Daemon/State    `daemon` and `daemons`: the services by name, and a trace of commands and signals
--   Daemon/Flow     Go's statements on that state: sequence, early `return`, nil dereference, locks
--   Daemon/Host     the operating system as a parameter, `procwait.Run` and `NewLogger`
--   Daemon/Stop     `Stop` and `stop`; Daemon/Restart: `Restart` and `Reload`;
--     Daemon/Monitor/Watch: `monitorCmds`, with its wait for the processes, and Daemon/Monitor its
--     end, from the exit of the processes on;
--     Daemon/Monitor/Needed: `monitorNeeded`; Daemon/Start and
--     Daemon/Start/Stages: `Start`, `start` and the functions it calls; Daemon/Keeps: proof rules
--   Daemon/Status   `Status`
--   Daemon/Enable   `Enable`, `Disable`, `Mask`, `Unmask` and the files of instances
--   Daemons/Load    `Reload` and `Find` (systemd/daemons/daemons.go) with `GetSystemdPaths`
--     (common/common.go); Daemons/Link: the end of `Reload`, which links the services
--   Procwait        `Run`, `Wait` and the reaper (procwait/procwait.go): `World` is the table and the
--     processes, and Procwait/Steps the turns that goroutines and processes take, in any order;
--     Procwait/Reap: `FinalReap`
--   Commands        the command handlers (systemd/command.go): Commands/Handlers has those that do not
--     only act on a list of services, Commands/Dispatch `command`, Commands/Spec what they are to do
--   PidTracker      `Add` and `Find` (systemd/pidtracker/pidtracker.go); PidTracker/Messages: the
--     messages of processes that fork (`pidtrack` of systemd/main.go)
--   Entry           `main` (main.go); Entry/Install: `install`; Entry/Options: the options of systemd
--     (systemd/main.go); Entry/Shutdown: `shutdown` (systemd/shutdown.go)
--   Daemons/Boot    `LoadAndStart`; Daemons/Shutdown: `StopAll` (systemd/daemons/daemons.go)
--   Exchange        a command from end to end: `Main` of systemctl/main.go, and the goroutine for a
--     connection (systemd/main.go) with what it writes to the socket
--   Logs            `Logger.Write` (systemd/daemons/logger.go) and the paths of log files
--     (common/common.go)
--   Journal         `Main` of journalctl/main.go, on a log as Logs leaves it; the clock is a parameter
--
-- A text is a list of bytes; case is changed for ASCII letters only. The order in which Go visits a
-- map is the order of the model's list. A pointer to a daemon is its name in `daemons.list`. One
-- goroutine runs at a time, from its start to its end, but for what `others` and `meanwhile` do while a
-- monitor waits and sleeps; only in Procwait do goroutines take turns. A mutex that a goroutine holds
-- across a call is `held`, and to lock it again is a deadlock. Log messages, the warnings on limits and, but for
-- Commands, the texts of errors are left out; an error is a value of `Fault` or `FileFault`. The
-- operating system's answers are functions of the number of the call, so they may change from call to
-- call; the files of Daemon/Enable are a parameter, of which Daemon/Enable/Files says what is assumed.
--
-- What is assumed: one read of a connection delivers the whole message, up to 65536 bytes, and does not
-- fail (`receive`); procwait.Wait returns for every process that a monitor waits for (`wait_for`). `load`
-- is `Reload` up to its links, and `reload_daemons` the whole.
--
-- Bounds: `start` has fuel for nested calls of `start`, and one more than a service's rank is enough.
-- The wait in `stop` has `wait_rounds` rounds, enough for its timeout as each round sleeps ten
-- milliseconds. The rounds of `parseSystemdDuration` are at most the bytes of its text. The float
-- product that scales a fraction is the parameter `fraction`, of which nothing is assumed.
--
-- A pid is given to one process only, and `Wait4` reports no process that has only stopped. `Find` of
-- the pid tracker has fuel for nested calls, and one more than a process's rank is enough. The loops
-- of `monitorCmds` that look for processes have rounds, and as many as calls are made until no process
-- is left, and one more, are enough; those of `FinalReap` are at most three more.
--
-- Not modelled: `Detail`, which prints YAML, and `quote`, which formats the text of an error; the pager
-- of journalctl, which is never used; an operation of a daemon that panics under a command; and
-- sockets, signals, the files of the preloaded library and other input and output. The locks that
-- `Reload` takes before the links are left out, as no goroutine of the model holds one there.

mod Base
pub mod Text
pub mod Definition
pub mod Duration
pub mod UnitFile
pub mod Wire
pub mod Daemon
pub mod PidTracker
pub mod Daemons
pub mod Procwait
pub mod Commands
pub mod Entry
pub mod Exchange
pub mod Logs
pub mod Journal
