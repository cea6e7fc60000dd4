-- ===== src/Daemons/Shutdown/Stopped.antt =====
-- systemd/daemons/daemons.go, `StopAll`: the services behind it.
use docker_systemd.Base.{
  ℕ, suc, ◌≡◌, ◌⊎◌, inl, inr, refl, sym, ◌∙◌, subst, Bool, true, false, Bool-cases, ◌||◌, List, [],
  ◌∷◌, Bytes, Option, none, some, if◌then◌else◌,
}
use docker_systemd.Text.{equal}
use docker_systemd.Text.Laws.{equal_iff}
use mathlib.Core.Option
use docker_systemd.Daemon.State.{Fault, is_shutting_down, Daemon, System, find}
use docker_systemd.Daemon.Flow.{
  Flow, next, returned, panicked, deadlocked, no_fuel, M, pure, return, deadlock, continue, ◌>>=◌,
  as_value, call, get, read, read_result, acquired, lock,
}
use docker_systemd.Daemon.Host.{Host}
use docker_systemd.Daemon.Keeps.{Holds, went_on, came_back, crashed, blocked}
use docker_systemd.Daemon.Start.{start, start_body}
use docker_systemd.Daemon.Start.Stages.{start_enter}
use docker_systemd.Daemon.Stop.{stop}
use docker_systemd.Daemon.Stop.Frame.{OnlyOwn, stop-OnlyOwn}
use docker_systemd.Daemon.Stop.Settles.{is_down, Settled, stop-Settled}
use docker_systemd.Daemons.Shutdown.{stop_item, stop_items, stop_all}

abbrev pub IsIn : Bytes → List Bytes → Type 0
IsIn m [] = true ≡ false
IsIn m (name ∷ names) = (name ≡ m) ⊎ IsIn m names

-- The flag is set, and the services in `T` are settled.
pub record AreSettled (T : Bytes → Type 0) (s : System) : Type 0 where
  pub flag : s.shutdown ≡ true
  pub down : (m : Bytes) → T m → Settled m s

module _ {A : Type 0} {P Q : System → Type 0} where
  Holds-both :
      {R : System → Type 0} (r : Flow A)
      → Holds P r
      → Holds Q r
      → ((s : System) → P s → Q s → R s)
      → Holds R r
  Holds-both (next a s) (went_on p) (went_on q) k = went_on (k s p q)
  Holds-both (returned a s) (came_back p) (came_back q) k = came_back (k s p q)
  Holds-both panicked p q k = crashed
  Holds-both deadlocked p q k = blocked
  Holds-both no_fuel p q k = elim p [ ]

-- The statements went on to their end, in a system with `P`, unless the program stopped.
pub data Completes {A : Type 0} (P : System → Type 0) : Flow A → Type 0 where
  completes : {a : A} {s : System} → P s → Completes P (next a s)
  nil_in : Completes P panicked
  waits_in : Completes P deadlocked

Completes-continue :
    {A B : Type 0} {P Q : System → Type 0} (r : Flow A) (f : A → M B)
    → Completes P r
    → ((a : A) (s : System) → P s → Completes Q (f a s))
    → Completes Q (continue r f)
Completes-continue (next a s) f (completes p) k = k a s p
Completes-continue (returned a s) f h k = elim h [ ]
Completes-continue panicked f h k = nil_in
Completes-continue deadlocked f h k = waits_in
Completes-continue no_fuel f h k = elim h [ ]

Completes-weaken :
    {A : Type 0} {P Q : System → Type 0} (r : Flow A)
    → Completes P r
    → ((s : System) → P s → Q s)
    → Completes Q r
Completes-weaken (next a s) (completes p) k = completes (k s p)
Completes-weaken (returned a s) h k = elim h [ ]
Completes-weaken panicked h k = nil_in
Completes-weaken deadlocked h k = waits_in
Completes-weaken no_fuel h k = elim h [ ]

-- A call does not return from the function that makes it.
Completes-as_value :
    {P : System → Type 0} (r : Flow (Option Fault))
    → Holds P (as_value r)
    → Completes P (as_value r)
Completes-as_value (next a s) (went_on p) = completes p
Completes-as_value (returned a s) (went_on p) = completes p
Completes-as_value panicked h = nil_in
Completes-as_value deadlocked h = waits_in
Completes-as_value no_fuel h = elim h [ ]

module _ (host : Host) where
  -- `Stop` of one more service.
  stop-AreSettled :
      (T : Bytes → Type 0) (name : Bytes) (s : System)
      → AreSettled T s
      → Completes (AreSettled (λ m. T m ⊎ (name ≡ m))) (stop host name true s)
  unfolding stop call
  stop-AreSettled T name s h = Completes-as_value _ (
      Holds-both _ (stop-OnlyOwn host name true s) (stop-Settled host name s) λ t own settled.
        record { flag = own.shutdown ∙ h.flag; down = λ m among. by_name t own settled m among })
    where
      by_name :
          (t : System)
          → OnlyOwn name s t
          → Settled name t
          → (m : Bytes) → T m ⊎ (name ≡ m)
          → Settled m t
      by_name t own settled m (inr same) = subst (λ m. Settled m t) same settled
      by_name t own settled m (inl old) = elim (Bool-cases (equal name m)) [
        | inl same ↦ subst (λ m. Settled m t) ((equal_iff name m).0 same) settled
        | inr other ↦ λ d e. h.down m old d (sym (own.others m other) ∙ e)
      ]

  -- A service that is down already is left alone.
  down-Settled :
      (name : Bytes) (d : Daemon) (s : System)
      → find name s.list ≡ some d
      → is_down d.state ≡ true
      → Settled name s
  down-Settled name d s e down d' e' =
      let same : d ≡ d' = Option.some-injective _ _ (sym e ∙ e') in
      subst (λ d. (d.masked || is_down d.state) ≡ true) same (by_mask d.masked)
    where
      by_mask : (b : Bool) → (b || is_down d.state) ≡ true
      by_mask true = refl
      by_mask false = down

  item-AreSettled :
      (T : Bytes → Type 0) (name : Bytes) (s : System)
      → AreSettled T s
      → Completes (AreSettled (λ m. T m ⊎ (name ≡ m))) (stop_item host name s)
  unfolding lock read ◌>>=◌ deadlock pure
  item-AreSettled T name s h = by_found (find name s.list) refl
    where
      U : Bytes → Type 0
      U m = T m ⊎ (name ≡ m)

      with_name : (m : Bytes) → U m → Settled name s → Settled m s
      with_name m (inl old) settled = h.down m old
      with_name m (inr same) settled = subst (λ m. Settled m s) same settled

      by_down :
          (d : Daemon) (b : Bool)
          → find name s.list ≡ some d
          → is_down d.state ≡ b
          → Completes
              (AreSettled U)
              ((if b then pure tt else (stop host name true >>= λ _. pure tt)) s)
      by_down d true e down = completes (record {
        flag = h.flag;
        down = λ m among. with_name m among (down-Settled name d s e down);
      })
      by_down d false e up =
          Completes-continue _ _ (stop-AreSettled T name s h) λ a t settled. completes settled

      by_held :
          (d : Daemon) (b : Bool)
          → find name s.list ≡ some d
          → Completes (AreSettled U) (
              continue
                ((if b then deadlock else pure d) s)
                (λ d. if is_down d.state then pure tt else (stop host name true >>= λ _. pure tt)))
      by_held d true e = waits_in
      by_held d false e = by_down d (is_down d.state) e refl

      by_found :
          (o : Option Daemon)
          → find name s.list ≡ o
          → Completes (AreSettled U) (
              continue
                (continue (read_result o s) acquired)
                (λ d. if is_down d.state then pure tt else (stop host name true >>= λ _. pure tt)))
      by_found none e = nil_in
      by_found (some d) e = by_held d d.held e

  items-AreSettled :
      (T : Bytes → Type 0) (names : List Bytes) (s : System)
      → AreSettled T s
      → Completes (AreSettled (λ m. T m ⊎ IsIn m names)) (stop_items host names s)
  unfolding stop_items ◌>>=◌ pure
  items-AreSettled T [] s h =
      completes (record { flag = h.flag; down = λ m among. by_side m among })
    where
      by_side : (m : Bytes) → T m ⊎ (true ≡ false) → Settled m s
      by_side m (inl old) = h.down m old
      by_side m (inr never) = absurd (cc)
  items-AreSettled T (name ∷ names) s h =
      Completes-continue _ _ (item-AreSettled T name s h) λ _ t settled.
        Completes-weaken _ (items-AreSettled (λ m. T m ⊎ (name ≡ m)) names t settled)
          λ u all. record { flag = all.flag; down = λ m among. all.down m (regroup m among) }
    where
      regroup : (m : Bytes) → T m ⊎ IsIn m (name ∷ names) → (T m ⊎ (name ≡ m)) ⊎ IsIn m names
      regroup m (inl old) = inl (inl old)
      regroup m (inr (inl same)) = inl (inr same)
      regroup m (inr (inr among)) = inr among

  -- While the system is shutting down, `start` of any service returns the error that says so and
  -- changes nothing.
  start-shutdown :
      (fuel : ℕ) (name : Bytes) (is_manual : Bool) (s : System)
      → s.shutdown ≡ true
      → start host (suc fuel) name is_manual s ≡ next (some is_shutting_down) s
  unfolding start call start_body start_enter ◌>>=◌ get return
  start-shutdown fuel name is_manual s flag = rw flag refl

  -- Every `start` fails, as the system is shutting down, and changes nothing.
  abbrev pub Refuses : System → Type 0
  Refuses t =
      (fuel : ℕ) (name : Bytes) (is_manual : Bool)
      → start host (suc fuel) name is_manual t ≡ next (some is_shutting_down) t

  -- On any host, from any system, and in whatever order the services come, `StopAll` goes to its end,
  -- unless it dereferences nil or locks a mutex that its goroutine holds. Then the system is shutting
  -- down, every service that the loop has met is stopped or stopping, unless it is masked, and every
  -- `start` from then on fails with the error that says so, and changes nothing.
  pub stop_all-AreSettled :
      (names : List Bytes) (s : System)
      → Completes (λ t. AreSettled (λ m. IsIn m names) t × Refuses t) (stop_all host names s)
  unfolding stop_all ◌>>=◌
  stop_all-AreSettled names s =
      Completes-weaken _
        (items-AreSettled (λ m. true ≡ false) names (record s { shutdown = true })
          (record { flag = refl; down = λ m never. absurd (cc) }))
        λ t all. (
          record { flag = all.flag; down = λ m among. all.down m (inr among) },
          λ fuel name is_manual. start-shutdown fuel name is_manual t all.flag,
        )
