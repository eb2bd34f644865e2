-- ===== src/Scaler/EventProcessor.antt =====
-- crates/nscale-scaler/src/event_processor.rs: the events of Nomad's stream. The processor's own state
-- is the set of the allocations that it has seen running.
pub mod Seen
pub mod Tests
use nomad_scale_to_zero.Prelude.{
  ℕ, String, Bool, true, false, Option, none, some, List, [], ◌∷◌, put, remove, is_some, unwrap_or,
  ◌==◌, ◌&&◌, ◌||◌, ◌≡◌, refl, arith, eq_iff, if◌then◌else◌,
}
use nomad_scale_to_zero.Prelude.Json.{Value, get, get_str}
use nomad_scale_to_zero.Core.Job.{JobId, JobRegistration}
use nomad_scale_to_zero.Core.Error.{Result, ok, err}
use nomad_scale_to_zero.Core.Effect.{Exec, pure, ignore, also, ◌>>=◌, ◌>>◌}
use nomad_scale_to_zero.Core.Traits.{ActivityStore}
use nomad_scale_to_zero.Nomad.Models.{NomadEvent}
use nomad_scale_to_zero.Core.Services.{JobRegistry, Coordinator}

pub record EventProcessor (W : Type 0) : Type 0 where
  pub coordinator : Coordinator W
  pub store : ActivityStore W
  pub registry : JobRegistry W

pub record State (W : Type 0) : Type 0 where
  pub world : W
  pub seen_running : String → Option (Unit {0})

-- The fields that the handler extracts.
pub record Allocation : Type 0 where
  pub job_id : JobId
  pub alloc_id : String
  pub client_status : String
  pub desired_status : String

-- `none` on the two early returns.
pub extract : NomadEvent → Option Allocation
unfolding get_str
extract event = elim (get "Allocation" event.payload) [
  | none ↦ none
  | some alloc ↦ elim (get_str "JobID" alloc) [
    | none ↦ none
    | some id ↦ some (record {
      job_id = id;
      alloc_id = unwrap_or (get_str "ID" alloc) "";
      client_status = unwrap_or (get_str "ClientStatus" alloc) "";
      desired_status = unwrap_or (get_str "DesiredStatus" alloc) "";
    })
  ]
]

-- The arms of the match on the two statuses, in their order.
pub data Transition : Type 0 where
  started stopped other : Transition

pub transition : Allocation → Transition
transition a =
    if (a.client_status == "running") && (a.desired_status == "run")
    then started
    else if ((a.client_status == "complete")
          || ((a.client_status == "failed") || (a.client_status == "lost")))
        || (a.desired_status == "stop")
    then stopped
    else other

module _ {W : Type 0} where
  abbrev pub lift {ℓ} : {A : Type ℓ} → Exec W A → Exec (State W) A
  lift m s = ((m s.world).0, record s { world = (m s.world).1 })

  abbrev pub change : (W → W) → State W → State W
  change f s = record s { world = f s.world }

module _ {W : Type 0} (p : EventProcessor W) where
  pub handle_transition : Allocation → Transition → Exec (State W) (Unit {0})
  handle_transition a started s =
      if is_some (s.seen_running a.alloc_id)
      then (ok tt, s)
      else lift (p.store.record_activity a.job_id)
          (record s { seen_running = put a.alloc_id tt s.seen_running })
  handle_transition a stopped s = (
    ok tt,
    change (ignore (p.store.remove_activity a.job_id)) (
        change (p.coordinator.mark_dormant a.job_id)
          (record s { seen_running = remove a.alloc_id s.seen_running })),
  )
  handle_transition a other s = (ok tt, s)

  -- `Some(reg) => reg, None => return Ok(())`
  pub handle_registered : Allocation → Option JobRegistration → Exec (State W) (Unit {0})
  unfolding handle_transition transition
  handle_registered a none s = (ok tt, s)
  handle_registered a (some reg) s = handle_transition a (transition a) s

  pub handle_allocation_event : NomadEvent → Exec (State W) (Unit {0})
  unfolding handle_registered extract
  handle_allocation_event event = elim (extract event) [
    | none ↦ pure tt
    | some a ↦ lift (p.registry.get a.job_id) >>= handle_registered a
  ]

  pub handle_event : NomadEvent → Exec (State W) (Unit {0})
  unfolding handle_allocation_event
  handle_event event s =
      if event.topic == "Allocation" then handle_allocation_event event s else (ok tt, s)

  -- The events that the channel gives before it is closed.
  unfoldable pub run : List NomadEvent → State W → State W
  unfolding handle_event
  run [] s = s
  run (event ∷ rest) s = run rest (ignore (handle_event event) s)

  -- The processor with another activity store and another coordinator.
  abbrev pub rewired : ActivityStore W → Coordinator W → EventProcessor W
  rewired st k = record p { store = st; coordinator = k }

module _ {W : Type 0} (p : EventProcessor W) where
  handled_seen :
      (a : Allocation) (s : State W) (r : Result (Option JobRegistration)) (w : W)
      → p.registry.get a.job_id s.world ≡ (r, w)
      → transition a ≡ started
      → s.seen_running a.alloc_id ≡ some tt
      → (event : NomadEvent) → extract event ≡ some a
      → (st : ActivityStore W) (k : Coordinator W)
      → handle_event (rewired p st k) event s ≡ handle_event p event s
  unfolding handle_event
  handled_seen a s (ok none) w g t seen event x st k = ground arith
  handled_seen a s (ok (some reg)) w g t seen event x st k = ground arith
  handled_seen a s (err e) w g t seen event x st k = ground arith

  started_seen :
      (a : Allocation) (s : State W) (reg : JobRegistration) (event : NomadEvent)
      → event.topic ≡ "Allocation"
      → extract event ≡ some a
      → transition a ≡ started
      → (p.registry.get a.job_id s.world).0 ≡ ok (some reg)
      → (b : Bool) → is_some (s.seen_running a.alloc_id) ≡ b
      → (handle_event p event s).1.seen_running a.alloc_id ≡ some tt
  unfolding handle_event
  started_seen a s reg event topic x t g b seen =
      ground (arith, eq_iff a.alloc_id a.alloc_id, eq_iff event.topic "Allocation")

  -- A replay is ignored: once the start of an allocation of a registered job has been handled, whether
  -- the activity could be recorded or not, a later event that reports the same allocation as running
  -- neither records activity nor marks the job dormant, whatever has happened elsewhere in between:
  -- what the processor does with it does not depend on the store or the coordinator.
  pub replay_ignored :
      (a : Allocation) (s : State W) (reg : JobRegistration) (event replay : NomadEvent) (w : W)
      → event.topic ≡ "Allocation"
      → extract event ≡ some a
      → extract replay ≡ some a
      → transition a ≡ started
      → (p.registry.get a.job_id s.world).0 ≡ ok (some reg)
      → (st : ActivityStore W) (k : Coordinator W)
      → let t = record (handle_event p event s).1 { world = w } in
        handle_event (rewired p st k) replay t ≡ handle_event p replay t
  replay_ignored a s reg event replay w topic x y t g st k =
      handled_seen a (record (handle_event p event s).1 { world = w }) _ _ refl t
        (started_seen a s reg event topic x t g _ refl) replay y st k
