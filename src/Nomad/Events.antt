-- ===== src/Nomad/Events.antt =====
-- crates/nscale-nomad/src/events.rs: the consumer of Nomad's event stream. The HTTP client, the
-- channel, the decoding of UTF-8 and the parser of a frame are not part of the program. What the
-- stream gives, and a cancellation at its place among it, is a list.
pub mod Lines
pub mod Replay
pub mod Failures
pub mod Resume
pub mod Chunks
pub mod Loop
pub mod Tests
use nomad_scale_to_zero.Prelude.{
  ℕ, zero, suc, ◌+◌, String, Bool, true, false, Option, none, some, List, [], ◌∷◌, ◌++◌, map,
  length, nat_eq, if◌then◌else◌,
}
use nomad_scale_to_zero.Prelude.Text.{
  append, show, is_empty, join, trim_start, trim_right, trim_end,
}
use nomad_scale_to_zero.Core.Error.{NscaleError, nomad, http, Result, ok, err}
use nomad_scale_to_zero.Core.Effect.{Exec, Act, Call, Reply, done, refused, on, wrap, ◌>>=◌}
use nomad_scale_to_zero.Nomad.Models.{EventStreamFrame, EventEnvelope, NomadEvent}
use nomad_scale_to_zero.Nomad.Client.{is_success}

pub record EventStreamConfig : Type 0 where
  pub nomad_addr : String
  pub nomad_token : Option String
  pub topics : List String
  pub initial_index : ℕ

abbrev pub Bytes : Type 0
Bytes = List ℕ

-- What the `select!` of the reading loop meets: the answers of `stream.next()`, or the cancellation.
pub data Arrival : Type 0 where
  chunk : Bytes → Arrival
  read_error : String → Arrival
  ended : Arrival
  cancelled : Arrival

pub record Response (W : Type 0) : Type 0 where
  pub status : ℕ
  pub reason : String
  pub text : Call W String
  pub bytes_stream : List Arrival

-- `send` answers the request for a URL with a token; `header_value` accepts a token as a header, or
-- says why not; `deliver` is the channel's `send`, which fails where the receiver is dropped;
-- `is_cancelled` reads the token, and `pause` sleeps, `true` where the cancellation came first.
pub record Connector (W : Type 0) : Type 0 where
  pub header_value : String → Reply (Unit {0})
  pub send : String → Option String → Call W (Response W)
  pub deliver : NomadEvent → Act W Bool
  pub from_utf8_lossy : Bytes → String
  pub from_str : String → Reply EventStreamFrame
  pub is_cancelled : Act W Bool
  pub pause : Act W Bool

-- The variables of the reading loop.
pub record Reader (W : Type 0) : Type 0 where
  pub world : W
  pub last_index : ℕ
  pub buffer : Bytes

pub topics_query : List String → String
unfolding join
topics_query topics = join "&" (map (λ (t : String). append "topic=" t) topics)

pub stream_url : EventStreamConfig → ℕ → String
unfolding topics_query trim_end
stream_url config last_index = append (trim_end "/" config.nomad_addr) (
    append "/v1/event/stream?"
      (append (topics_query config.topics) (append "&index=" (show last_index))))

-- `buffer.iter().position(|&b| b == b'\n')`, and the two parts of `buffer.drain(..=pos)`.
pub position : Bytes → Option ℕ
position [] = none
position (b ∷ rest) =
    let later : Option ℕ = elim (position rest) [ none ↦ none | some n ↦ some (suc n) ] in
    if nat_eq b 10 then some 0 else later

abbrev pub drained : ℕ → Bytes → Bytes
drained n [] = []
drained zero (b ∷ rest) = b ∷ []
drained (suc n) (b ∷ rest) = b ∷ drained n rest

abbrev pub remaining : ℕ → Bytes → Bytes
remaining n [] = []
remaining zero (b ∷ rest) = rest
remaining (suc n) (b ∷ rest) = remaining n rest

pub trim : String → String
unfolding trim_start trim_right
trim s = trim_right (trim_start s)

module _ {W : Type 0} (c : Connector W) where
  abbrev pub event_of : ℕ → EventEnvelope → NomadEvent
  event_of index e = record {
    index = index;
    topic = e.topic;
    event_type = e.event_type;
    payload = e.payload;
  }

  -- The rest of a loop; `false` is the `return Ok(())` on a dropped receiver.
  abbrev pub unless_stopped : {S : Type 0} → Bool × S → (S → Bool × S) → Bool × S
  unless_stopped (true, s) k = k s
  unless_stopped (false, s) k = (false, s)

  pub send_events : ℕ → List EventEnvelope → W → Bool × W
  send_events index [] w = (true, w)
  send_events index (e ∷ rest) w =
      unless_stopped (c.deliver (event_of index e) w) (send_events index rest)

  pub handle_events : ℕ → List EventEnvelope → Reader W → Bool × Reader W
  unfolding send_events
  handle_events index [] s = (true, s)
  handle_events index (e ∷ rest) s =
      let sent = send_events index (e ∷ rest) s.world in
      (sent.0, record s { world = sent.1; last_index = index })

  pub handle_frame : Reply EventStreamFrame → Reader W → Bool × Reader W
  unfolding handle_events
  handle_frame (refused m) s = (true, s)
  handle_frame (done frame) s = handle_events frame.index frame.events s

  pub handle_line : Bytes → Reader W → Bool × Reader W
  unfolding handle_frame trim
  handle_line bytes s =
      let line = trim (c.from_utf8_lossy bytes) in
      if is_empty line then (true, s) else handle_frame (c.from_str line) s

  -- The `while let`, on fuel: each round takes a byte at least out of the buffer.
  pub process_lines : ℕ → Reader W → Bool × Reader W
  unfolding position
  process_lines zero s = (true, s)
  process_lines (suc fuel) s = elim (position s.buffer) [
    | none ↦ (true, s)
    | some pos ↦
        unless_stopped
          (handle_line (drained pos s.buffer) (record s { buffer = remaining pos s.buffer }))
          (process_lines fuel)
  ]

  -- `extend_from_slice`, and the lines that are complete.
  pub take_chunk : Bytes → Reader W → Bool × Reader W
  unfolding process_lines
  take_chunk bytes s =
      process_lines (length (s.buffer ++ bytes)) (record s { buffer = s.buffer ++ bytes })

  -- `none` while the loop waits for what the stream gives next.
  abbrev pub Consumed : Type 0
  Consumed = Option (Result (Unit {0})) × Reader W

  abbrev pub unless_dropped : Bool × Reader W → (Reader W → Consumed) → Consumed
  unless_dropped (true, s) k = k s
  unless_dropped (false, s) k = (some (ok tt), s)

  pub consume : List Arrival → Reader W → Consumed
  unfolding take_chunk
  consume [] s = (none, s)
  consume (chunk bytes ∷ rest) s = unless_dropped (take_chunk bytes s) (consume rest)
  consume (read_error m ∷ rest) s = (some (err (nomad (append "stream read error: " m))), s)
  consume (ended ∷ rest) s = (some (err (nomad "event stream ended unexpectedly")), s)
  consume (cancelled ∷ rest) s = (some (ok tt), s)

  abbrev pub fresh : ℕ → W → Reader W
  fresh last_index w = record { world = w; last_index = last_index; buffer = [] }

  -- A connection's outcome, with the index to resume from.
  abbrev pub Connected : Type 0
  Connected = Option (Result (Unit {0})) × ℕ × W

  abbrev pub read_stream : ℕ → W → List Arrival → Connected
  read_stream last_index w arrivals =
      let read = consume arrivals (fresh last_index w) in
      (read.0, (read.1).last_index, (read.1).world)

  -- `resp.text().await.unwrap_or_default()`
  abbrev pub text_or_default : Reply String → String
  text_or_default (done t) = t
  text_or_default (refused m) = ""

  pub read_response : ℕ → Response W → W → Connected
  unfolding consume
  read_response last_index resp w =
      if is_success resp.status then read_stream last_index w resp.bytes_stream else (
        some (
            err (
              nomad (
                append "event stream returned " (
                  append (show resp.status) (
                    append " "
                      (append resp.reason (append ": " (text_or_default (resp.text w).0)))))))),
        last_index,
        (resp.text w).1,
      )

  pub after_send : ℕ → Reply (Response W) → W → Connected
  unfolding read_response
  after_send last_index (refused m) w = (some (err (http m)), last_index, w)
  after_send last_index (done resp) w = read_response last_index resp w

  -- The token as a header, if there is one.
  abbrev pub token_header : Option String → Reply (Unit {0})
  token_header none = done tt
  token_header (some token) = c.header_value token

  abbrev pub with_header : Reply (Unit {0}) → ℕ → W → Connected → Connected
  with_header (refused m) last_index w rest = (some (err (nomad m)), last_index, w)
  with_header (done u) last_index w rest = rest

  pub connect_and_consume : EventStreamConfig → ℕ → W → Connected
  unfolding after_send stream_url
  connect_and_consume config last_index w =
      let sent = c.send (stream_url config last_index) config.nomad_token w in
      with_header (token_header config.nomad_token) last_index w
        (after_send last_index sent.0 sent.1)
