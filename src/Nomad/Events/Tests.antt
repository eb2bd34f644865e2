-- ===== src/Nomad/Events/Tests.antt =====
-- events.rs on a small stream; the state is the list of the events that were delivered.
use nomad_scale_to_zero.Prelude.{
  String, true, false, none, List, [], ◌∷◌, ◌++◌, map, ◌≡◌, refl, nat_eq, if◌then◌else◌, ◌==◌,
}
use nomad_scale_to_zero.Prelude.Json.{null}
use nomad_scale_to_zero.Core.Effect.{Reply, done, refused}
use nomad_scale_to_zero.Nomad.Models.{EventStreamFrame, NomadEvent}
use nomad_scale_to_zero.Nomad.Events.{
  EventStreamConfig, Bytes, Arrival, chunk, ended, Connector, Response, position, trim,
  topics_query, process_lines, take_chunk, handle_line, handle_frame, handle_events, send_events,
  read_response, consume,
}
use nomad_scale_to_zero.Nomad.Events.Loop.{event_stream_loop, Progress}
use nomad_scale_to_zero.Nomad.Events.Lines.{lines}
use nomad_scale_to_zero.Nomad.Events.Chunks.{chunks_irrelevant}
use nomad_scale_to_zero.Nomad.Events.Resume.{Resumes, latest, resumes_after_last_frame}
use mathlib.Core.List.{flatten}

abbrev frame : String → Reply EventStreamFrame
frame s =
    if s == "f"
    then done (record {
      events =
          record { topic = "Allocation"; event_type = "AllocationUpdated"; payload = null } ∷ [];
      index = 7;
    })
    else if s == "{}"
    then done (record { events = []; index = 0 })
    else refused "expected a value"

-- A text of the bytes of a line: the letter f is a frame, a brace a heartbeat.
abbrev decoded : Bytes → String
decoded [] = ""
decoded (b ∷ rest) = if nat_eq b 102 then "f\n" else if nat_eq b 123 then "{}\n" else "\n"

abbrev connector : List Arrival → Connector (List NomadEvent)
connector arrivals = record {
  header_value = λ token. done tt;
  send = λ url token w. (
    done
        (record { status = 200; reason = "OK"; text = λ v. (done "", v); bytes_stream = arrivals }),
    w,
  );
  deliver = λ event w. (true, event ∷ w);
  from_utf8_lossy = decoded;
  from_str = frame;
  is_cancelled = λ w. (false, w);
  pause = λ w. (true, w);
}

abbrev response : Response (List NomadEvent)
response = record { status = 200; reason = "OK"; text = λ w. (done "", w); bytes_stream = [] }

-- "f", "\n{", "\nf", and the same bytes in two chunks.
abbrev cut : List Bytes
cut = (102 ∷ []) ∷ (10 ∷ 123 ∷ []) ∷ (10 ∷ 102 ∷ []) ∷ []

abbrev other_cut : List Bytes
other_cut = (102 ∷ 10 ∷ 123 ∷ 10 ∷ []) ∷ (102 ∷ []) ∷ []

chunks_irrelevant_example :
    read_response
      (connector [])
      3
      (record response { bytes_stream = map chunk cut ++ (ended ∷ []) })
      []
    ≡ read_response
        (connector [])
        3
        (record response { bytes_stream = map chunk other_cut ++ (ended ∷ []) })
        []
unfolding flatten
chunks_irrelevant_example =
    chunks_irrelevant (connector []) response cut other_cut (ended ∷ []) 3 [] refl refl

resumes_after_last_frame_example :
    Resumes
      (connector [])
      (lines (flatten cut)).0
      (latest (connector []) 3 (lines (flatten cut)).0)
      (read_response
        (connector [])
        3
        (record response { bytes_stream = map chunk cut ++ (ended ∷ []) })
        [])
resumes_after_last_frame_example =
    resumes_after_last_frame (connector []) response cut ended [] 3 [] refl refl

abbrev config : EventStreamConfig
config = record {
  nomad_addr = "http://nomad:4646/";
  nomad_token = none;
  topics = "Allocation" ∷ "Job" ∷ [];
  initial_index = 3;
}

topics_lem : topics_query config.topics ≡ "topic=Allocation&topic=Job"
unfolding topics_query
topics_lem = refl

delivered : event_stream_loop (connector (map chunk cut ++ (ended ∷ []))) config 1 [] ≡ (
  Progress.returned,
  7,
  record { index = 7; topic = "Allocation"; event_type = "AllocationUpdated"; payload = null } ∷ [],
)
unfolding event_stream_loop consume take_chunk process_lines handle_line handle_frame handle_events
    send_events position trim
delivered = refl
