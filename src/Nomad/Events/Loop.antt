-- ===== src/Nomad/Events/Loop.antt =====
-- events.rs: the loop that connects to the event stream again and again.
use nomad_scale_to_zero.Prelude.{ℕ, zero, suc, Bool, true, false, none, some}
use nomad_scale_to_zero.Core.Error.{ok, err}
use nomad_scale_to_zero.Nomad.Events.{EventStreamConfig, Connector, Connected, connect_and_consume}

-- `returned` at the `return`s, `reading` while a stream is read, `retrying` where the connections
-- that are allowed for are used up.
pub data Progress : Type 0 where
  returned reading retrying : Progress

module _ {W : Type 0} (c : Connector W) where
  abbrev pub unless_cancelled : Bool × W → ℕ → (W → Progress × ℕ × W) → Progress × ℕ × W
  unless_cancelled (true, w) last_index k = (returned, last_index, w)
  unless_cancelled (false, w) last_index k = k w

  abbrev pub after_connection : Connected c → (ℕ → W → Progress × ℕ × W) → Progress × ℕ × W
  after_connection (none, i, w) k = (reading, i, w)
  after_connection (some (ok u), i, w) k = (returned, i, w)
  after_connection (some (err e), i, w) k = unless_cancelled (c.pause w) i (k i)

  -- The loop's first `n` rounds.
  pub rounds : EventStreamConfig → ℕ → ℕ → W → Progress × ℕ × W
  unfolding connect_and_consume
  rounds config zero last_index w = (retrying, last_index, w)
  rounds config (suc n) last_index w =
      unless_cancelled (c.is_cancelled w) last_index
        (λ v. after_connection (connect_and_consume c config last_index v) (rounds config n))

  unfoldable pub event_stream_loop : EventStreamConfig → ℕ → W → Progress × ℕ × W
  unfolding rounds
  event_stream_loop config n w = rounds config n config.initial_index w
