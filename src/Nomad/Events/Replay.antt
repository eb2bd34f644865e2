-- ===== src/Nomad/Events/Replay.antt =====
-- events.rs: the loop that drains the buffer, and the lines of the buffer handled in their order.
use nomad_scale_to_zero.Prelude.{
  ℕ, zero, suc, ◌≤◌, Bool, true, false, List, [], ◌∷◌, ◌++◌, length, ◌≡◌, refl, arith, Option-cases,
  Bool-cases, inl, inr,
}
use nomad_scale_to_zero.Prelude.Text.{is_empty}
use nomad_scale_to_zero.Core.Effect.{Reply, done, refused}
use nomad_scale_to_zero.Nomad.Models.{EventStreamFrame, EventEnvelope}
use nomad_scale_to_zero.Nomad.Events.{
  Bytes, Arrival, chunk, Connector, Reader, position, drained, remaining, unless_stopped, trim,
  handle_events, handle_frame, handle_line, process_lines, take_chunk, Consumed, unless_dropped,
  consume, Connected,
}
use nomad_scale_to_zero.Nomad.Events.Lines.{lines, lines-none, lines-some, remaining_shorter}

module _ {W : Type 0} (c : Connector W) where
  abbrev pub with_buffer : Bytes → Reader W → Reader W
  with_buffer b s = record s { buffer = b }

  -- The lines in their order.
  unfoldable pub replay : List Bytes → Reader W → Bool × Reader W
  replay [] s = (true, s)
  replay (line ∷ rest) s = unless_stopped c (handle_line c line s) (replay rest)

  -- The buffer of a reader that has stopped is not read again: it is left out.
  abbrev pub settle : Bytes → Bool × Reader W → Bool × Reader W
  settle b (true, s) = (true, with_buffer b s)
  settle b (false, s) = (false, with_buffer [] s)

  abbrev forget : Bool × Reader W → Bool × Reader W
  forget (true, s) = (true, s)
  forget (false, s) = (false, with_buffer [] s)

  abbrev pub put_back : Bytes → Bool × Reader W → Bool × Reader W
  put_back b p = (p.0, with_buffer b p.1)

  handle_events-buffer :
      (index : ℕ) (events : List EventEnvelope) (b : Bytes) (s : Reader W)
      → handle_events c index events (with_buffer b s) ≡ put_back b (handle_events c index events s)
  unfolding handle_events
  handle_events-buffer index [] b s = refl
  handle_events-buffer index (e ∷ rest) b s = refl

  handle_frame-buffer :
      (frame : Reply EventStreamFrame) (b : Bytes) (s : Reader W)
      → handle_frame c frame (with_buffer b s) ≡ put_back b (handle_frame c frame s)
  unfolding handle_frame
  handle_frame-buffer (refused m) b s = refl
  handle_frame-buffer (done frame) b s = handle_events-buffer frame.index frame.events b s

  -- Handling a line leaves the buffer alone and does not read it.
  pub handle_line-buffer :
      (line b : Bytes) (s : Reader W)
      → handle_line c line (with_buffer b s) ≡ put_back b (handle_line c line s)
  unfolding handle_line
  handle_line-buffer line b s = elim (Bool-cases (is_empty (trim (c.from_utf8_lossy line)))) [
    | inl e ↦ rw (e, handle_line) refl
    | inr e ↦
        rw (e, handle_line) (handle_frame-buffer (c.from_str (trim (c.from_utf8_lossy line))) b s)
  ]

  -- The loop and the lines of its buffer.
  taken :
      (b r : Bytes) (p : Bool × Reader W) (k l : Reader W → Bool × Reader W)
      → ((s : Reader W) → forget (k (with_buffer b s)) ≡ settle r (l s))
      → forget (unless_stopped c (put_back b p) k) ≡ settle r (unless_stopped c p l)
  taken b r (true, s) k l h = h s
  taken b r (false, s) k l h = refl

  process_lines-replay :
      (fuel : ℕ) (b : Bytes) (s : Reader W)
      → length b ≤ fuel
      → forget (process_lines c fuel (with_buffer b s)) ≡ settle (lines b).1 (replay (lines b).0 s)
  unfolding process_lines replay lines
  process_lines-replay zero [] s h = refl
  process_lines-replay zero (x ∷ b) s h = absurd (omega arith)
  process_lines-replay (suc fuel) b s h = elim (Option-cases (position b)) [
    | inl e ↦ rw (e, process_lines) (rw (lines-none b e, replay) refl)
    | inr (pos, e) ↦
        rw (e, process_lines)
          (rw (lines-some b pos e, replay)
            (rw (handle_line-buffer (drained pos b) (remaining pos b) s) (
              taken (remaining pos b) (lines (remaining pos b)).1 (handle_line c (drained pos b) s)
                (process_lines c fuel) (replay (lines (remaining pos b)).0)
                (λ (t : Reader W).
                  process_lines-replay fuel (remaining pos b) t
                    (omega (arith, remaining_shorter b pos e))))))
  ]

  -- The whole of a reader's buffer, with a chunk behind it.
  take_chunk-replay :
      (x : Bytes) (s : Reader W)
      → forget (take_chunk c x s)
        ≡ settle (lines (s.buffer ++ x)).1 (replay (lines (s.buffer ++ x)).0 s)
  unfolding take_chunk
  take_chunk-replay x s =
      process_lines-replay (length (s.buffer ++ x)) (s.buffer ++ x) s (omega arith)

  -- What is seen of a stream that is read.
  abbrev pub observed : Consumed c → Connected c
  observed (r, s) = (r, s.last_index, s.world)

  observed-forget :
      (p : Bool × Reader W) (k : Reader W → Consumed c)
      → observed (unless_dropped c (forget p) k) ≡ observed (unless_dropped c p k)
  observed-forget (true, s) k = refl
  observed-forget (false, s) k = refl

  -- A chunk, with what is read after it.
  pub read_chunk :
      (x : Bytes) (rest : List Arrival) (s : Reader W)
      → observed (consume c (chunk x ∷ rest) s)
        ≡ observed (
            unless_dropped c
              (settle (lines (s.buffer ++ x)).1 (replay (lines (s.buffer ++ x)).0 s))
              (consume c rest))
  unfolding consume
  read_chunk x rest s =
      rw (← observed-forget (take_chunk c x s) (consume c rest)) (rw (take_chunk-replay x s) refl)
