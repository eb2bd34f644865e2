-- ===== src/Waker/Rewake.antt =====
-- coordinator.rs: a call that comes after `mark_dormant` or `invalidate`.
use nomad_scale_to_zero.Prelude.{ℕ, zero, suc, ◌≡◌, ◌∙◌, ap, String, none, [], arith, eq_iff}
use nomad_scale_to_zero.Core.Job.{JobRegistration}
use nomad_scale_to_zero.Waker.Coordinator.{WakeCoordinator, mark_dormant}
use nomad_scale_to_zero.Waker.Tasks.{fast, enter, check, spawning}
use nomad_scale_to_zero.Waker.System.{System, edit, set_request, run_request}

-- `n` accesses of request task `i` with no other step in between.
abbrev pub accesses : ℕ → ℕ → System → System
accesses zero i s = s
accesses (suc n) i s = accesses n i (run_request i s)

module _ (s : System) (i : ℕ) (reg : JobRegistration) where
  missed :
      s.request i ≡ fast reg
      → s.coordinator.endpoints reg.job_id ≡ none
      → run_request i s ≡ set_request i (enter reg) s
  unfolding run_request
  missed e a = ground arith

  created :
      s.request i ≡ enter reg
      → s.coordinator.jobs reg.job_id ≡ none
      → ((run_request i s).request i ≡ check reg s.coordinator.next)
        × (((run_request i s).coordinator.cells s.coordinator.next).status ≡ 0)
        × ((run_request i s).wake ≡ s.wake)
  unfolding run_request
  created e a = ground arith

  won :
      (r : ℕ)
      → s.request i ≡ check reg r
      → (s.coordinator.cells r).status ≡ 0
      → ((accesses 3 i s).request i ≡ spawning reg r []) × ((accesses 3 i s).wake ≡ s.wake)
  unfolding run_request
  won r e a = ground arith

-- A call for a job with no cached endpoint and no wake state.
unknown_spawns :
    (s : System) (i : ℕ) (reg : JobRegistration) (n : ℕ)
    → s.coordinator.next ≡ n
    → s.request i ≡ fast reg
    → s.coordinator.endpoints reg.job_id ≡ none
    → s.coordinator.jobs reg.job_id ≡ none
    → ((accesses 5 i s).request i ≡ spawning reg n []) × ((accesses 5 i s).wake ≡ s.wake)
unknown_spawns s i reg n m e a b =
    let entered = set_request i (enter reg) s in
    let (checks, dormant, same) = created entered i reg (ground arith) b in
    let (spawns, kept) = won (run_request i entered) i reg s.coordinator.next checks dormant in
    rw (missed s i reg e a) ((spawns ∙ ap (λ (k : ℕ). spawning reg k []) m), kept ∙ same)

mark_dormant-next : (key : String) (c : WakeCoordinator) → (mark_dormant key c).next ≡ c.next
unfolding mark_dormant
mark_dormant-next key c = ground arith

-- Whatever runs, after `mark_dormant` a call for the job comes, if nothing else happens in between, by
-- five accesses to spawn a wake task for a new wake state, and a wake task that runs already for the
-- job runs on.
pub mark_dormant_rewakes :
    (s : System) (i : ℕ) (reg : JobRegistration)
    → let t = accesses 5 i (set_request i (fast reg) (edit (mark_dormant reg.job_id) s)) in
      (t.request i ≡ spawning reg s.coordinator.next []) × (t.wake ≡ s.wake)
unfolding mark_dormant
mark_dormant_rewakes s i reg =
    let key = reg.job_id in
    unknown_spawns (set_request i (fast reg) (edit (mark_dormant key) s)) i reg s.coordinator.next
      (mark_dormant-next key s.coordinator) (ground arith) (ground (arith, eq_iff key key))
      (ground (arith, eq_iff key key))
