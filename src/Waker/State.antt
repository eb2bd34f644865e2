-- ===== src/Waker/State.antt =====
-- crates/nscale-waker/src/state.rs: the wake state that the request tasks of a job share, and the
-- results that are broadcast. The broadcast channel is kept as the mailboxes of its receivers,
-- which stand with the tasks that own them (Waker/Tasks).
use nomad_scale_to_zero.Prelude.{ℕ, String, Bool, true, false, nat_eq, if◌then◌else◌}
use nomad_scale_to_zero.Core.Job.{Endpoint}

abbrev pub state_dormant : ℕ
state_dormant = 0

abbrev pub state_waking : ℕ
state_waking = 1

abbrev pub state_ready : ℕ
state_ready = 2

pub record WakeState : Type 0 where
  pub status : ℕ

pub data WakeResult : Type 0 where
  ready : Endpoint → WakeResult
  job_not_found failed : String → WakeResult
  cancelled : WakeResult

abbrev pub new_waking : WakeState
new_waking = record { status = state_waking }

abbrev pub new_dormant : WakeState
new_dormant = record { status = state_dormant }

pub is_dormant : WakeState → Bool
is_dormant s = nat_eq s.status state_dormant

pub is_waking : WakeState → Bool
is_waking s = nat_eq s.status state_waking

unfoldable pub is_ready : WakeState → Bool
is_ready s = nat_eq s.status state_ready

-- `compare_exchange`: whether this caller won, and the state after.
unfoldable pub try_start_wake : WakeState → Bool × WakeState
try_start_wake s =
    if nat_eq s.status state_dormant then (true, record { status = state_waking }) else (false, s)

unfoldable pub set_ready : WakeState → WakeState
set_ready s = record { status = state_ready }

unfoldable pub set_dormant : WakeState → WakeState
set_dormant s = record { status = state_dormant }
