-- ===== src/Runtime/Server/Ends.antt =====
-- waitReady ends, if the clock goes on.
use llamarig.Common.{
  ℕ, zero, suc, ◌+◌, ◌≤◌, ◌<◌, ◌≡◌, sym, subst, ◌⊎◌, inl, inr, Bool, true, false, Option, none,
  some, [], ◌∷◌, arith, ltb, ltb→lt, Bool-cases,
}
use llamarig.Common.Text.{Text}
use llamarig.Runtime.{Failure, ServerConfig}
use llamarig.Runtime.Machine.{Os, M, Signal, Target, Machine}
use llamarig.Runtime.Server.{Ending, finished, endless, is_running, probe_at, probe_ready}
use llamarig.Runtime.Server.Operations.{in_time, probed, waited, wait_ready_until, wait_ready}

-- A clock that no call turns back, and that a pause moves on unless the context is done.
pub record IsClock {W : Type 0} (os : Os W) (time : W → ℕ) : Type 0 where
  pub told : (w : W) → (os.now w).0 ≡ time w
  pub now_later : (w : W) → time w ≤ time (os.now w).1
  pub pause_later : (w : W) → ((os.pause w).0 ≡ true) ⊎ (time w < time (os.pause w).1)
  pub exited_later : (w : W) → time w ≤ time (os.exited w).1
  pub signal_later : (s : Signal) (t : Target) (w : W) → time w ≤ time (os.signal s t w).1
  pub dial_later : (addr : Text) (w : W) → time w ≤ time (os.dial addr w).1
  pub get_later : (url : Text) (w : W) → time w ≤ time (os.get url w).1

abbrev pub IsFinished : Ending → Type 0
IsFinished endless = ⊥
IsFinished (finished e) = Unit

module _ {W : Type 0} (os : Os W) (cfg : ServerConfig) (time : W → ℕ)
    (clock : IsClock os time) where
  running_later : (m : Machine W) → time m.world ≤ time (is_running os cfg m).1.world
  unfolding is_running
  running_later m = ground (
    arith,
    clock.exited_later m.world,
    clock.signal_later Signal.probe (Target.process m.server.pid) m.world,
    clock.signal_later Signal.probe (Target.process m.server.pid) (os.exited m.world).1,
  )

  probe_at_later :
      (addr path : Text) (m : Machine W) → time m.world ≤ time (probe_at os cfg addr path m).1.world
  probe_at_later addr [] m = clock.dial_later addr m.world
  probe_at_later addr (c ∷ path) m = clock.get_later _ m.world

  probe_later : (m : Machine W) → time m.world ≤ time (probe_ready os cfg m).1.world
  unfolding probe_ready
  probe_later m = probe_at_later _ cfg.readiness_path m

  -- A later round ends, if there is one before the deadline.
  abbrev Continues : M W Ending → ℕ → ℕ → Type 0
  Continues next deadline now =
      now < deadline → (m : Machine W) → now < time m.world → IsFinished (next m).0

  in_time-IsFinished :
      (next : M W Ending) (deadline now : ℕ) (m : Machine W)
      → Continues next deadline now
      → now ≤ time m.world
      → IsFinished (in_time os cfg next (ltb now deadline) m).0
  in_time-IsFinished next deadline now m h later = elim (Bool-cases (ltb now deadline)) [
    | inr late ↦ rw late tt
    | inl early ↦ rw early (elim (Bool-cases (os.pause m.world).0) [
      | inl done ↦ rw done tt
      | inr not_done ↦ rw not_done (
          h (ltb→lt now deadline early) (record m { world = (os.pause m.world).1 })
            (ground (arith, clock.pause_later m.world)))
    ])
  ]

  probed-IsFinished :
      (next : M W Ending) (deadline : ℕ) (e : Option Failure) (m : Machine W)
      → Continues next deadline (time m.world)
      → IsFinished (probed os cfg next deadline e m).0
  probed-IsFinished next deadline none m h = tt
  probed-IsFinished next deadline (some _) m h =
      let m' : Machine W = record m { world = (os.now m.world).1 } in
      subst (λ now. IsFinished (in_time os cfg next (ltb now deadline) m').0)
        (sym (clock.told m.world))
        (in_time-IsFinished next deadline (time m.world) m' h (clock.now_later m.world))

  waited-IsFinished :
      (next : M W Ending) (deadline : ℕ) (there : Bool) (m : Machine W)
      → ((now : ℕ) → time m.world ≤ now → Continues next deadline now)
      → IsFinished (waited os cfg next deadline there m).0
  waited-IsFinished next deadline false m h = tt
  waited-IsFinished next deadline true m h =
      probed-IsFinished next deadline _ _ (h _ (probe_later m))

  wait_ready_until-IsFinished :
      (fuel deadline : ℕ) (m : Machine W)
      → deadline < fuel + time m.world
      → IsFinished (wait_ready_until os cfg (suc fuel) deadline m).0
  unfolding wait_ready_until
  wait_ready_until-IsFinished zero deadline m enough =
      waited-IsFinished _ deadline _ (is_running os cfg m).1
        (λ now late early. absurd (omega (arith, running_later m)))
  wait_ready_until-IsFinished (suc fuel) deadline m enough =
      waited-IsFinished _ deadline _ (is_running os cfg m).1 (λ now late early m' later.
        wait_ready_until-IsFinished fuel deadline m' (omega (arith, running_later m)))

  pub wait_ready-IsFinished :
      (fuel : ℕ) (m : Machine W)
      → cfg.readiness_timeout + 2 ≤ fuel
      → IsFinished (wait_ready os cfg fuel m).0
  unfolding wait_ready
  wait_ready-IsFinished zero m enough = absurd (omega arith)
  wait_ready-IsFinished (suc fuel) m enough =
      wait_ready_until-IsFinished fuel ((os.now m.world).0 + cfg.readiness_timeout)
        (record m { world = (os.now m.world).1 })
        (omega (arith, clock.told m.world, clock.now_later m.world))
