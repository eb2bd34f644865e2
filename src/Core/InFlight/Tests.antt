-- ===== src/Core/InFlight/Tests.antt =====
-- inflight.rs on concrete events.
use nomad_scale_to_zero.Prelude.{◌≡◌, List, [], ◌∷◌, ltb, arith}
use nomad_scale_to_zero.Core.InFlight.{
  Event, tracked, dropped, new, count, has_in_flight, run, live, guards_of, Valid, count-run,
}

abbrev events : List Event
events = tracked "web" ∷ tracked "api" ∷ dropped "web" ∷ []

events-Valid : Valid [] events
unfolding guards_of
events-Valid = (omega arith, (omega arith, (omega arith, tt)))

count-run_example :
    (count "web" (run new events) ≡ guards_of "web" (live [] events))
    × (has_in_flight "web" (run new events) ≡ ltb 0 (guards_of "web" (live [] events)))
count-run_example = count-run events "web" events-Valid
