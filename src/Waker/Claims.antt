-- ===== src/Waker/Claims.antt =====
-- coordinator.rs: who has won the race on which wake state, and which states a task refers to.
use nomad_scale_to_zero.Prelude.{ℕ, String, ◌<◌, ◌≡◌, ◌≢◌, Option, none, some}
use nomad_scale_to_zero.Waker.Tasks.{
  Request, check, subscribing, racing, starting, spawning, waiting, Wake, unborn, acquiring,
  scaling, polling, ended, told, woke, inserted, readied, broken, reset,
}
use nomad_scale_to_zero.Waker.System.{System}

-- The wake state whose race the call has won and has yet to spawn for.
abbrev pub claim_request : Request → Option ℕ
claim_request (starting _ r) = some r
claim_request (spawning _ r _) = some r
claim_request _ = none

-- The wake state that the task works for: from the spawn on, until a failure has reset the state.
abbrev pub claim_wake : Wake → Option ℕ
claim_wake (acquiring _ r) = some r
claim_wake (scaling _ r) = some r
claim_wake (polling _ r) = some r
claim_wake (woke _ r _) = some r
claim_wake (inserted _ r _) = some r
claim_wake (readied _ r _) = some r
claim_wake (ended _ r) = some r
claim_wake (broken _ r _) = some r
claim_wake _ = none

abbrev pub claim : Request → Wake → Option ℕ
claim q unborn = claim_request q
claim q k = claim_wake k

-- The wake state that a task refers to.
abbrev pub cell_request : Request → Option ℕ
cell_request (check _ r) = some r
cell_request (subscribing _ r) = some r
cell_request (racing _ r) = some r
cell_request (starting _ r) = some r
cell_request (spawning _ r _) = some r
cell_request (waiting _ r _) = some r
cell_request _ = none

abbrev pub cell_wake : Wake → Option ℕ
cell_wake (reset _ r _) = some r
cell_wake (told _ r) = some r
cell_wake k = claim_wake k

abbrev pub status : System → ℕ → ℕ
status s r = (s.coordinator.cells r).status

pub record Inv (s : System) : Type 0 where
  pub jobs_bound : (k : String) (r : ℕ) → s.coordinator.jobs k ≡ some r → r < s.coordinator.next
  pub request_bound : (i r : ℕ) → cell_request (s.request i) ≡ some r → r < s.coordinator.next
  pub wake_bound : (i r : ℕ) → cell_wake (s.wake i) ≡ some r → r < s.coordinator.next
  pub unique :
      (i j r : ℕ)
      → claim (s.request i) (s.wake i) ≡ some r
      → claim (s.request j) (s.wake j) ≡ some r
      → i ≡ j
  pub busy : (i r : ℕ) → claim (s.request i) (s.wake i) ≡ some r → status s r ≢ 0
