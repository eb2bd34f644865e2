-- ===== src/Scaler/EventProcessor/Tests.antt =====
-- event_processor.rs on concrete events.
use nomad_scale_to_zero.Prelude.{ℕ, String, ◌≡◌, refl, true, none, is_some, ◌∷◌, []}
use nomad_scale_to_zero.Prelude.Json.{string, object, field, empty}
use nomad_scale_to_zero.Core.Error.{store, err}
use nomad_scale_to_zero.Core.Traits.{ActivityStore}
use nomad_scale_to_zero.Core.Samples.{web, sample_activity, sample_registry, sample_coordinator}
use nomad_scale_to_zero.Nomad.Models.{NomadEvent}
use nomad_scale_to_zero.Scaler.EventProcessor.{
  EventProcessor, State, Allocation, extract, transition, handle_event, run, rewired,
  replay_ignored,
}
use nomad_scale_to_zero.Scaler.EventProcessor.Seen.{last_reported, run-last_reported}

abbrev processor : EventProcessor ℕ
processor = record {
  coordinator = sample_coordinator;
  store = sample_activity;
  registry = sample_registry;
}

abbrev start : State ℕ
start = record { world = 0; seen_running = λ id. none }

abbrev report : String → String → NomadEvent
report client desired = record {
  index = 7;
  topic = "Allocation";
  event_type = "AllocationUpdated";
  payload = object (
      field "Allocation"
        (object (
          field "JobID" (string "web") (
            field "ID" (string "a1") (
              field "ClientStatus" (string client)
                (field "DesiredStatus" (string desired) empty)))))
        empty);
}

abbrev allocation : String → String → Allocation
allocation client desired = record {
  job_id = "web";
  alloc_id = "a1";
  client_status = client;
  desired_status = desired;
}

abbrev broken_store : ActivityStore ℕ
broken_store = record sample_activity { record_activity = λ job w. (err (store "down"), 9) }

replay_ignored_example :
    let t = record (handle_event processor (report "running" "run") start).1 { world = 5 } in
    handle_event (rewired processor broken_store sample_coordinator) (report "running" "run") t
    ≡ handle_event processor (report "running" "run") t
unfolding extract transition
replay_ignored_example =
    replay_ignored processor (allocation "running" "run") start web (report "running" "run")
      (report "running" "run") 5 refl refl refl refl refl broken_store sample_coordinator

run-last_reported_example :
    let events = report "running" "run" ∷ report "failed" "run" ∷ report "running" "run" ∷ [] in
    is_some ((run processor events start).seen_running "a1")
    ≡ last_reported (λ job. true) "a1" events (is_some (start.seen_running "a1"))
run-last_reported_example =
    run-last_reported processor (λ job. true) (λ job w. refl)
      (report "running" "run" ∷ report "failed" "run" ∷ report "running" "run" ∷ []) start "a1"

-- The processor ends with the allocation seen running.
started_again :
    last_reported
      (λ job. true)
      "a1"
      (report "running" "run" ∷ report "failed" "run" ∷ report "running" "run" ∷ [])
      (is_some (start.seen_running "a1"))
    ≡ true
unfolding last_reported extract transition
started_again = refl
