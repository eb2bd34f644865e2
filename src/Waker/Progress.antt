-- ===== src/Waker/Progress.antt =====
-- coordinator.rs: a call that is not interrupted.
use nomad_scale_to_zero.Prelude.{
  ℕ, zero, suc, ◌≡◌, refl, Bool, true, false, Option, none, some, arith, Bool-cases, inl, inr,
  nat_eq,
}
use nomad_scale_to_zero.Core.Job.{Endpoint, JobRegistration}
use nomad_scale_to_zero.Waker.State.{state_dormant}
use nomad_scale_to_zero.Waker.Coordinator.{entry}
use nomad_scale_to_zero.Waker.Tasks.{
  Request, idle, gone, returned, spawning, waiting, asking, fast, enter, check, racing, starting,
  dispatch,
}
use nomad_scale_to_zero.Waker.System.{System, run_request}
use nomad_scale_to_zero.Waker.Rewake.{accesses}

-- The call is over, waits for an answer or a broadcast, or is about to spawn its task.
abbrev pub rests : Request → Bool
rests idle = true
rests gone = true
rests (returned _) = true
rests (spawning _ _ _) = true
rests (waiting _ _ _) = true
rests (asking _) = true
rests _ = false

module _ (i : ℕ) where
  abbrev Rests : ℕ → System → Type 0
  Rests n s = rests ((accesses n i s).request i) ≡ true

  resting :
      (s : System) (q : Request)
      → s.request i ≡ q
      → rests q ≡ true
      → rests ((run_request i s).request i) ≡ true
  unfolding run_request
  resting s q e h = ground arith

  Rests-later : (n : ℕ) (s : System) → Rests n s → Rests (suc n) s
  Rests-later zero s h = resting s (s.request i) refl h
  Rests-later (suc n) s h = Rests-later n (run_request i s) h

  starting-Rests :
      (s : System) (reg : JobRegistration) (r : ℕ) → s.request i ≡ starting reg r → Rests 1 s
  unfolding run_request
  starting-Rests s reg r e = ground arith

  -- A call that finds the state DORMANT wins the race.
  racing-Rests :
      (s : System) (reg : JobRegistration) (r : ℕ)
      → s.request i ≡ racing reg r
      → (s.coordinator.cells r).status ≡ 0
      → Rests 2 s
  unfolding run_request
  racing-Rests s reg r e d = ground arith

  check-Rests : (s : System) (reg : JobRegistration) (r : ℕ) → s.request i ≡ check reg r → Rests 3 s
  unfolding run_request dispatch
  check-Rests s reg r e = ground arith

  enter-Rests : (s : System) (reg : JobRegistration) → s.request i ≡ enter reg → Rests 4 s
  unfolding run_request
  enter-Rests s reg e =
      check-Rests (run_request i s) reg (entry reg.job_id s.coordinator) (ground arith)

  lost-Rests : (s : System) (reg : JobRegistration) (r : ℕ) → s.request i ≡ racing reg r → Rests 5 s
  unfolding run_request
  lost-Rests s reg r e = elim (Bool-cases (nat_eq (s.coordinator.cells r).status state_dormant)) [
    | inl dormant ↦
        Rests-later 4 s (Rests-later 3 s (Rests-later 2 s (racing-Rests s reg r e (ground arith))))
    | inr other ↦ enter-Rests (run_request i s) reg (ground arith)
  ]

  short-Rests : (s : System) → Rests 1 s → Rests 5 s
  short-Rests s h = Rests-later 4 s (Rests-later 3 s (Rests-later 2 s (Rests-later 1 s h)))

  fast-Rests :
      (s : System) (reg : JobRegistration) (known : Option Endpoint)
      → s.request i ≡ fast reg
      → s.coordinator.endpoints reg.job_id ≡ known
      → Rests 5 s
  unfolding run_request
  fast-Rests s reg none e k = enter-Rests (run_request i s) reg (ground arith)
  fast-Rests s reg (some ep) e k = short-Rests s (ground arith)

  Rests-cases : (q : Request) (s : System) → s.request i ≡ q → Rests 5 s
  unfolding run_request
  Rests-cases (fast reg) s e = fast-Rests s reg _ e refl
  Rests-cases (enter reg) s e = Rests-later 4 s (enter-Rests s reg e)
  Rests-cases (check reg r) s e = Rests-later 4 s (Rests-later 3 s (check-Rests s reg r e))
  Rests-cases (racing reg r) s e = lost-Rests s reg r e
  Rests-cases q s e = short-Rests s (ground arith)

  -- No call is caught in the loop: whatever has happened before, a call that is not interrupted has,
  -- within five accesses, returned, come to wait for an answer or for the broadcast, or come to spawn a
  -- wake task.
  pub accesses-rests : (s : System) → rests ((accesses 5 i s).request i) ≡ true
  accesses-rests s = Rests-cases (s.request i) s refl
