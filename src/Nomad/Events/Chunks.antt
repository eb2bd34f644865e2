-- ===== src/Nomad/Events/Chunks.antt =====
-- events.rs: what the reader does with a stream does not depend on how the bytes are cut into
-- chunks.
use nomad_scale_to_zero.Prelude.{
  ℕ, Bool, true, false, List, [], ◌∷◌, ◌++◌, map, ◌≡◌, refl, sym, ◌∙◌,
}
use nomad_scale_to_zero.Nomad.Client.{is_success}
use mathlib.Core.List.{append_assoc, append-nil, flatten}
use nomad_scale_to_zero.Nomad.Events.{
  Bytes, Arrival, chunk, Connector, Reader, unless_stopped, handle_line, Consumed, unless_dropped,
  consume, fresh, Response, read_response,
}
use nomad_scale_to_zero.Nomad.Events.Replay.{
  with_buffer, replay, settle, put_back, observed, handle_line-buffer, read_chunk,
}
use nomad_scale_to_zero.Nomad.Events.Lines.{lines, joined, lines-append, lines_left}

module _ {W : Type 0} (c : Connector W) where
  unless_stopped_assoc :
      (p : Bool × Reader W) (k l m : Reader W → Bool × Reader W)
      → ((s : Reader W) → k s ≡ unless_stopped c (l s) m)
      → unless_stopped c p k ≡ unless_stopped c (unless_stopped c p l) m
  unless_stopped_assoc (true, s) k l m h = h s
  unless_stopped_assoc (false, s) k l m h = refl

  replay-append :
      (xs ys : List Bytes) (s : Reader W)
      → replay c (xs ++ ys) s ≡ unless_stopped c (replay c xs s) (replay c ys)
  unfolding replay
  replay-append [] ys s = refl
  replay-append (line ∷ xs) ys s =
      unless_stopped_assoc (handle_line c line s) (replay c (xs ++ ys)) (replay c xs) (replay c ys)
        (λ (t : Reader W). replay-append xs ys t)

  resettled :
      (b r : Bytes) (p : Bool × Reader W) (k : Reader W → Bool × Reader W)
      → ((s : Reader W) → settle c r (k (with_buffer c b s)) ≡ settle c r (k s))
      → settle c r (unless_stopped c (put_back c b p) k) ≡ settle c r (unless_stopped c p k)
  resettled b r (true, s) k h = h s
  resettled b r (false, s) k h = refl

  -- The lines do not depend on the buffer.
  replay-buffer :
      (ls : List Bytes) (b r : Bytes) (s : Reader W)
      → settle c r (replay c ls (with_buffer c b s)) ≡ settle c r (replay c ls s)
  unfolding replay
  replay-buffer [] b r s = refl
  replay-buffer (line ∷ ls) b r s = rw (handle_line-buffer c line b s) (
      resettled b r (handle_line c line s) (replay c ls) (λ (t : Reader W). replay-buffer ls b r t))

  -- Two chunks whose first leaves `r`.
  merged :
      (r y : Bytes) (rest : List Arrival) (p : Bool × Reader W)
      → observed c (unless_dropped c (settle c r p) (consume c (chunk y ∷ rest)))
        ≡ observed c (
            unless_dropped c
              (settle c (lines (r ++ y)).1 (unless_stopped c p (replay c (lines (r ++ y)).0)))
              (consume c rest))
  merged r y rest (true, s) =
      rw (← replay-buffer (lines (r ++ y)).0 r (lines (r ++ y)).1 s)
        (read_chunk c y rest (with_buffer c r s))
  merged r y rest (false, s) = refl

  merge :
      (x y : Bytes) (rest : List Arrival) (s : Reader W)
      → observed c (consume c (chunk x ∷ chunk y ∷ rest) s)
        ≡ observed c (consume c (chunk (x ++ y) ∷ rest) s)
  merge x y rest s =
      read_chunk c x (chunk y ∷ rest) s
      ∙ merged (lines (s.buffer ++ x)).1 y rest (replay c (lines (s.buffer ++ x)).0 s)
      ∙ sym (read_chunk c (x ++ y) rest s ∙ split)
    where
      split :
          observed c (
            unless_dropped c
              (settle c
                (lines (s.buffer ++ (x ++ y))).1
                (replay c (lines (s.buffer ++ (x ++ y))).0 s))
              (consume c rest))
          ≡ observed c (
              unless_dropped c
                (settle c (joined (lines (s.buffer ++ x)) y).1 (
                  unless_stopped c
                    (replay c (lines (s.buffer ++ x)).0 s)
                    (replay c (lines ((lines (s.buffer ++ x)).1 ++ y)).0)))
                (consume c rest))
      split = rw (← append_assoc s.buffer x y) (
          rw (lines-append (s.buffer ++ x) y) (
            rw
              (replay-append (lines (s.buffer ++ x)).0 (lines ((lines (s.buffer ++ x)).1 ++ y)).0 s)
              refl))

  after_chunk :
      (r : Bytes) (p : Bool × Reader W) (k l : Reader W → Consumed c)
      → ((t : Reader W) → observed c (k (with_buffer c r t)) ≡ observed c (l (with_buffer c r t)))
      → observed c (unless_dropped c (settle c r p) k)
        ≡ observed c (unless_dropped c (settle c r p) l)
  after_chunk r (true, t) k l h = h t
  after_chunk r (false, t) k l h = refl

  pub in_one_chunk :
      (cs : List Bytes) (rest : List Arrival) (s : Reader W)
      → lines s.buffer ≡ ([], s.buffer)
      → observed c (consume c (map chunk cs ++ rest) s)
        ≡ observed c (consume c (chunk (flatten cs) ∷ rest) s)
  unfolding replay flatten
  in_one_chunk [] rest s h = sym (read_chunk c [] rest s ∙ rw (append-nil s.buffer) (rw h refl))
  in_one_chunk (x ∷ cs) rest s h =
      let r = (lines (s.buffer ++ x)).1 in
      read_chunk c x (map chunk cs ++ rest) s
      ∙ after_chunk r (replay c (lines (s.buffer ++ x)).0 s) (consume c (map chunk cs ++ rest))
          (consume c (chunk (flatten cs) ∷ rest))
          (λ (t : Reader W). in_one_chunk cs rest (with_buffer c r t) (lines_left (s.buffer ++ x)))
      ∙ sym (read_chunk c x (chunk (flatten cs) ∷ rest) s)
      ∙ merge x (flatten cs) rest s

  -- Two successful responses whose streams give the same bytes, cut into chunks in whatever way, and
  -- then go on alike: reading them has the same outcome, the same index to resume from and the same
  -- effects, which are the events that are delivered.
  pub chunks_irrelevant :
      (resp : Response W) (cs ds : List Bytes) (rest : List Arrival) (last_index : ℕ) (w : W)
      → is_success resp.status ≡ true
      → flatten cs ≡ flatten ds
      → read_response c last_index (record resp { bytes_stream = map chunk cs ++ rest }) w
        ≡ read_response c last_index (record resp { bytes_stream = map chunk ds ++ rest }) w
  unfolding read_response lines
  chunks_irrelevant resp cs ds rest last_index w good same = rw good (
      in_one_chunk cs rest (fresh c last_index w) refl
      ∙ rw same refl
      ∙ sym (in_one_chunk ds rest (fresh c last_index w) refl))
