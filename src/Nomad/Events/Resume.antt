-- ===== src/Nomad/Events/Resume.antt =====
-- events.rs: the index from which the next connection is asked for.
use nomad_scale_to_zero.Prelude.{
  ℕ, Bool, true, false, some, List, [], ◌∷◌, ◌++◌, map, ◌⊎◌, ◌≡◌, refl, Bool-cases, inl, inr, subst,
  sym, ◌∙◌, if◌then◌else◌,
}
use nomad_scale_to_zero.Prelude.Text.{is_empty, append}
use nomad_scale_to_zero.Core.Effect.{Reply, done, refused}
use nomad_scale_to_zero.Core.Error.{NscaleError, nomad, ok, err}
use nomad_scale_to_zero.Nomad.Models.{EventStreamFrame, EventEnvelope}
use nomad_scale_to_zero.Nomad.Client.{is_success}
use nomad_scale_to_zero.Nomad.Events.{
  Bytes, Arrival, chunk, read_error, ended, cancelled, Connector, Reader, Response, unless_stopped,
  trim, handle_events, handle_frame, handle_line, unless_dropped, consume, fresh, read_response,
  Connected,
}
use nomad_scale_to_zero.Nomad.Events.Lines.{lines}
use nomad_scale_to_zero.Nomad.Events.Replay.{replay, settle, observed, read_chunk}
use nomad_scale_to_zero.Nomad.Events.Chunks.{in_one_chunk}
use nomad_scale_to_zero.Nomad.Events.Failures.{DeliveryFailed, replay_failed}
use mathlib.Core.List.{flatten}

-- The stream breaks: a read fails, or the server ends it.
abbrev pub breaks : Arrival → Bool
breaks (read_error m) = true
breaks ended = true
breaks _ = false

module _ {W : Type 0} (c : Connector W) where
  abbrev pub frame_index : ℕ → Reply EventStreamFrame → ℕ
  frame_index i (refused m) = i
  frame_index i (done frame) = elim frame.events [ [] ↦ i | e ∷ rest ↦ frame.index ]

  -- The index of the last line that is a frame with events; `i` if there is none.
  abbrev pub latest : ℕ → List Bytes → ℕ
  latest i [] = i
  latest i (line ∷ rest) =
      latest
        (if is_empty (trim (c.from_utf8_lossy line))
          then i
          else frame_index i (c.from_str (trim (c.from_utf8_lossy line))))
        rest

  events_index :
      (index : ℕ) (events : List EventEnvelope) (s : Reader W)
      → ((handle_events c index events s).1).last_index
        ≡ elim events [ [] ↦ s.last_index | e ∷ rest ↦ index ]
  unfolding handle_events
  events_index index [] s = refl
  events_index index (e ∷ rest) s = refl

  frame_last_index :
      (frame : Reply EventStreamFrame) (s : Reader W)
      → ((handle_frame c frame s).1).last_index ≡ frame_index s.last_index frame
  unfolding handle_frame
  frame_last_index (refused m) s = refl
  frame_last_index (done frame) s = events_index frame.index frame.events s

  line_last_index :
      (line : Bytes) (s : Reader W)
      → ((handle_line c line s).1).last_index ≡ (
          if is_empty (trim (c.from_utf8_lossy line))
          then s.last_index
          else frame_index s.last_index (c.from_str (trim (c.from_utf8_lossy line))))
  unfolding handle_line
  line_last_index line s = elim (Bool-cases (is_empty (trim (c.from_utf8_lossy line)))) [
    | inl e ↦ rw (e, handle_line) refl
    | inr e ↦ rw (e, handle_line) (frame_last_index (c.from_str (trim (c.from_utf8_lossy line))) s)
  ]

  after_line :
      (p : Bool × Reader W) (k : Reader W → Bool × Reader W) (ls : List Bytes)
      → ((t : Reader W) → (k t).0 ≡ true → ((k t).1).last_index ≡ latest t.last_index ls)
      → (unless_stopped c p k).0 ≡ true
      → ((unless_stopped c p k).1).last_index ≡ latest (p.1).last_index ls
  after_line (true, t) k ls h g = h t g
  after_line (false, t) k ls h g = absurd (cc)

  replayed :
      (ls : List Bytes) (s : Reader W)
      → (replay c ls s).0 ≡ true
      → ((replay c ls s).1).last_index ≡ latest s.last_index ls
  unfolding replay
  replayed [] s h = refl
  replayed (line ∷ ls) s h =
      rw (← line_last_index line s)
        (after_line (handle_line c line s) (replay c ls) ls (λ (t : Reader W). replayed ls t) h)

  -- A delivery failed and the reader has returned, or an error is to be followed by a connection that
  -- asks from index `i`.
  abbrev pub Resumes : List Bytes → ℕ → Connected c → Type 0
  Resumes ls i out =
      ((out.0 ≡ some (ok tt)) × DeliveryFailed c ls)
      ⊎ ((e : NscaleError) × (out.0 ≡ some (err e)) × (out.1 ≡ i))

  -- How a reader goes on.
  broken :
      (ls : List Bytes) (r : Bytes) (p : Bool × Reader W) (a : Arrival) (later : List Arrival)
      (i : ℕ)
      → breaks a ≡ true
      → (p.0 ≡ false → DeliveryFailed c ls)
      → (p.0 ≡ true → (p.1).last_index ≡ i)
      → Resumes ls i (observed c (unless_dropped c (settle c r p) (consume c (a ∷ later))))
  unfolding consume
  broken ls r (false, s) a later i h f k = inl (refl, f refl)
  broken ls r (true, s) (read_error m) later i h f k =
      inr (nomad (append "stream read error: " m), refl, k refl)
  broken ls r (true, s) ended later i h f k =
      inr (nomad "event stream ended unexpectedly", refl, k refl)
  broken ls r (true, s) (chunk b) later i h f k = absurd (cc)
  broken ls r (true, s) cancelled later i h f k = absurd (cc)

  -- A stream that is read in chunks until it breaks, by an error or by its end: either the delivery
  -- failed of an event that stands on one of the complete lines, and the reader returns Ok, or it
  -- returns an error, and the index to resume from is that of the last complete line that is a frame
  -- with events, or the one from before where no line is. Empty lines, lines that do not parse,
  -- heartbeats and an incomplete last line do not move it.
  pub resumes_after_last_frame :
      (resp : Response W) (cs : List Bytes) (a : Arrival) (later : List Arrival) (i : ℕ) (w : W)
      → is_success resp.status ≡ true
      → breaks a ≡ true
      → Resumes
          (lines (flatten cs)).0
          (latest i (lines (flatten cs)).0)
          (read_response c i (record resp { bytes_stream = map chunk cs ++ (a ∷ later) }) w)
  unfolding read_response lines
  resumes_after_last_frame resp cs a later i w good h =
      let ls : List Bytes = (lines (flatten cs)).0 in
      rw good (
        subst (Resumes ls (latest i ls))
          (sym (
            in_one_chunk c cs (a ∷ later) (fresh c i w) refl
            ∙ read_chunk c (flatten cs) (a ∷ later) (fresh c i w)))
          (broken ls (lines (flatten cs)).1 (replay c ls (fresh c i w)) a later (latest i ls) h
            (replay_failed c ls (fresh c i w)) (replayed ls (fresh c i w))))
