-- ===== src/Scaler/EventProcessor/Seen.antt =====
-- event_processor.rs: the allocations that the processor holds as seen running, over a whole stream.
use nomad_scale_to_zero.Prelude.{
  String, Bool, true, false, Option, none, some, List, [], ◌∷◌, is_some, ◌==◌, ◌&&◌, ◌≡◌, refl, ap,
  ◌∙◌, arith, eq_iff, if◌then◌else◌,
}
use nomad_scale_to_zero.Core.Job.{JobId, JobRegistration}
use nomad_scale_to_zero.Core.Error.{Result, ok, err}
use nomad_scale_to_zero.Core.Effect.{ignore, ◌>>=◌}
use nomad_scale_to_zero.Nomad.Models.{NomadEvent}
use nomad_scale_to_zero.Scaler.EventProcessor.{
  EventProcessor, State, Allocation, Transition, started, stopped, other, extract, transition,
  handle_transition, handle_registered, handle_allocation_event, handle_event, run, lift,
}

abbrev pub is_registered : Result (Option JobRegistration) → Bool
is_registered (ok none) = false
is_registered (ok (some reg)) = true
is_registered (err e) = false

-- One allocation: whether it is running after it has been reported so.
abbrev pub moved : Transition → Bool → Bool
moved started before = true
moved stopped before = false
moved other before = before

abbrev pub reported : (JobId → Bool) → String → Option Allocation → Bool → Bool
reported registered id none before = before
reported registered id (some a) before =
    if registered a.job_id && (a.alloc_id == id) then moved (transition a) before else before

-- The last transition that a list of events reports of one allocation of a registered job.
unfoldable pub last_reported : (JobId → Bool) → String → List NomadEvent → Bool → Bool
last_reported registered id [] before = before
last_reported registered id (event ∷ rest) before =
    last_reported registered id rest (
      if event.topic == "Allocation" then reported registered id (extract event) before else before)

module _ {W : Type 0} (p : EventProcessor W) where
  handle_transition-seen :
      (a : Allocation) (t : Transition) (s : State W) (id : String) (b : Bool)
      → is_some (s.seen_running a.alloc_id) ≡ b
      → is_some ((handle_transition p a t s).1.seen_running id) ≡ (
          if a.alloc_id == id
          then moved t (is_some (s.seen_running id))
          else is_some (s.seen_running id))
  unfolding handle_transition
  handle_transition-seen a started s id b h = ground (arith, eq_iff a.alloc_id id)
  handle_transition-seen a stopped s id b h = ground (arith, eq_iff a.alloc_id id)
  handle_transition-seen a other s id b h = ground (arith, eq_iff a.alloc_id id)

  handle_registered-seen :
      (a : Allocation) (r : Result (Option JobRegistration)) (s : State W) (w : W) (id : String)
      → is_some ((ignore (lift (λ x. (r, w)) >>= handle_registered p a) s).seen_running id) ≡ (
          if is_registered r && (a.alloc_id == id)
          then moved (transition a) (is_some (s.seen_running id))
          else is_some (s.seen_running id))
  unfolding handle_registered
  handle_registered-seen a (ok none) s w id = refl
  handle_registered-seen a (ok (some reg)) s w id =
      handle_transition-seen a (transition a) (record s { world = w }) id _ refl
  handle_registered-seen a (err e) s w id = refl

  module _ (registered : JobId → Bool)
      (known : (job : JobId) (w : W)
        → is_registered (p.registry.get job w).0 ≡ registered job) where
    handle_allocation-seen :
        (event : NomadEvent) (s : State W) (id : String) (x : Option Allocation)
        → extract event ≡ x
        → is_some ((ignore (handle_allocation_event p event) s).seen_running id)
          ≡ reported registered id x (is_some (s.seen_running id))
    unfolding handle_allocation_event
    handle_allocation-seen event s id none e = ground arith
    handle_allocation-seen event s id (some a) e =
        let h =
          handle_registered-seen a (p.registry.get a.job_id s.world).0 s
            (p.registry.get a.job_id s.world).1 id in
        ground (arith, known a.job_id s.world, h)

    handle_event-seen :
        (event : NomadEvent) (s : State W) (id : String) (b : Bool)
        → (event.topic == "Allocation") ≡ b
        → is_some ((ignore (handle_event p event) s).seen_running id) ≡ (
            if event.topic == "Allocation"
            then reported registered id (extract event) (is_some (s.seen_running id))
            else is_some (s.seen_running id))
    unfolding handle_event
    handle_event-seen event s id true e =
        ground (arith, handle_allocation-seen event s id (extract event) refl)
    handle_event-seen event s id false e = ground arith

    -- While the registrations do not change, an allocation is held as seen running, after any list of
    -- events and from any state, exactly as the last transition that these events report of it says: a
    -- start of an allocation of a registered job sets it, a stop clears it, and the events of
    -- unregistered jobs, of other allocations and of other topics, and those without a job, leave it.
    pub run-last_reported :
        (events : List NomadEvent) (s : State W) (id : String)
        → is_some ((run p events s).seen_running id)
          ≡ last_reported registered id events (is_some (s.seen_running id))
    unfolding run last_reported
    run-last_reported [] s id = refl
    run-last_reported (event ∷ rest) s id =
        run-last_reported rest (ignore (handle_event p event) s) id
        ∙ ap (last_reported registered id rest) (handle_event-seen event s id _ refl)
