-- ===== src/Nomad/Events/Failures.antt =====
-- events.rs: why the reader has stopped among the lines.
use nomad_scale_to_zero.Prelude.{
  ℕ, Bool, true, false, List, [], ◌∷◌, ◌++◌, ◌⊎◌, ◌≡◌, refl, arith, Bool-cases, inl, inr, ap,
}
use nomad_scale_to_zero.Prelude.Text.{is_empty}
use nomad_scale_to_zero.Core.Effect.{Reply, done, refused}
use nomad_scale_to_zero.Nomad.Models.{EventStreamFrame, EventEnvelope}
use nomad_scale_to_zero.Nomad.Events.{
  Bytes, Connector, Reader, unless_stopped, event_of, send_events, trim, handle_events,
  handle_frame, handle_line,
}
use nomad_scale_to_zero.Nomad.Events.Replay.{replay}

module _ {W : Type 0} (c : Connector W) where
  -- A delivery failed of an event of the frame that stands on a line.
  pub record LineFailed (line : Bytes) : Type 0 where
    pub frame : EventStreamFrame
    pub parsed : c.from_str (trim (c.from_utf8_lossy line)) ≡ done frame
    pub earlier : List EventEnvelope
    pub event : EventEnvelope
    pub later : List EventEnvelope
    pub among : frame.events ≡ earlier ++ (event ∷ later)
    pub world : W
    pub failed : (c.deliver (event_of c frame.index event) world).0 ≡ false

  -- On one of the lines.
  abbrev pub DeliveryFailed : List Bytes → Type 0
  DeliveryFailed ls =
      (above : List Bytes) × (line : Bytes) × (below : List Bytes) × (ls ≡ above ++ (line ∷ below))
      × LineFailed line

  stopped_where :
      {S : Type 0} (p : Bool × S) (k : S → Bool × S)
      → (unless_stopped c p k).0 ≡ false
      → (p.0 ≡ false) ⊎ ((k p.1).0 ≡ false)
  stopped_where (true, s) k h = inr h
  stopped_where (false, s) k h = inl refl

  send_failed :
      (index : ℕ) (events : List EventEnvelope) (w : W)
      → (send_events c index events w).0 ≡ false
      → (earlier : List EventEnvelope) × (event : EventEnvelope) × (later : List EventEnvelope)
        × (events ≡ earlier ++ (event ∷ later))
        × (v : W) × ((c.deliver (event_of c index event) v).0 ≡ false)
  unfolding send_events
  send_failed index [] w h = absurd (cc)
  send_failed index (e ∷ rest) w h =
      elim (stopped_where (c.deliver (event_of c index e) w) (send_events c index rest) h) [
        | inl here ↦ ([], e, rest, refl, w, here)
        | inr there ↦
            (let (earlier, event, later, among, v, failed) =
                send_failed index rest (c.deliver (event_of c index e) w).1 there in
              (e ∷ earlier, event, later, ap (λ es. e ∷ es) among, v, failed))
      ]

  events_sent :
      (index : ℕ) (events : List EventEnvelope) (s : Reader W)
      → (handle_events c index events s).0 ≡ false
      → (send_events c index events s.world).0 ≡ false
  unfolding handle_events
  events_sent index [] s h = absurd (cc)
  events_sent index (e ∷ rest) s h = h

  frame_failed :
      (line : Bytes) (frame : Reply EventStreamFrame) (s : Reader W)
      → c.from_str (trim (c.from_utf8_lossy line)) ≡ frame
      → (handle_frame c frame s).0 ≡ false
      → LineFailed line
  unfolding handle_frame handle_events
  frame_failed line (refused m) s e h = absurd (cc)
  frame_failed line (done frame) s e h =
      let (earlier, event, later, among, v, failed) =
        send_failed frame.index frame.events s.world (events_sent frame.index frame.events s h) in
      record {
        frame = frame;
        parsed = e;
        earlier = earlier;
        event = event;
        later = later;
        among = among;
        world = v;
        failed = failed;
      }

  line_failed : (line : Bytes) (s : Reader W) → (handle_line c line s).0 ≡ false → LineFailed line
  unfolding handle_line
  line_failed line s h = elim (Bool-cases (is_empty (trim (c.from_utf8_lossy line)))) [
    | inl e ↦ absurd (ground (arith, rw (e, handle_line) at h))
    | inr e ↦ frame_failed line _ s refl (rw (e, handle_line) at h)
  ]

  pub replay_failed :
      (ls : List Bytes) (s : Reader W) → (replay c ls s).0 ≡ false → DeliveryFailed ls
  unfolding replay
  replay_failed [] s h = absurd (cc)
  replay_failed (line ∷ ls) s h = elim (stopped_where (handle_line c line s) (replay c ls) h) [
    | inl here ↦ ([], line, ls, refl, line_failed line s here)
    | inr there ↦
        (let (above, l, below, listed, failed) = replay_failed ls (handle_line c line s).1 there in
          (line ∷ above, l, below, ap (λ xs. line ∷ xs) listed, failed))
  ]
