-- ===== src/Core/InFlight.antt =====
-- crates/nscale-core/src/inflight.rs: the number of live guards of each job. A counter is shared by
-- every guard that holds it and is never removed from the map, so the map is from the job to the
-- counter's value. A counter is a `usize`: it wraps at 2 ^ 64.
pub mod Tests
use nomad_scale_to_zero.Prelude.{
  ℕ, suc, ◌+◌, ◌-◌, ◌%◌, ◌^◌, ◌<◌, ◌≡◌, refl, String, Bool, Option, none, some, List, [], ◌∷◌,
  arith, put, unwrap_or, ltb, ◌==◌, eq_iff, length, if◌then◌else◌,
}

pub record InFlightTracker : Type 0 where
  pub counts : String → Option ℕ

abbrev pub new : InFlightTracker
new = record { counts = λ _. none }

pub count : String → InFlightTracker → ℕ
count job t = unwrap_or (t.counts job) 0

pub has_in_flight : String → InFlightTracker → Bool
has_in_flight job t = elim (t.counts job) [ none ↦ Bool.false | some c ↦ ltb 0 c ]

-- The counter is made at 0 on first use, and then `fetch_add(1)`.
pub track : String → InFlightTracker → InFlightTracker
track job t =
    let c = unwrap_or (t.counts job) 0 in record { counts = put job ((c + 1) % 2 ^ 64) t.counts }

-- `Drop for InFlightGuard`: `fetch_sub(1)` on the guard's counter.
pub release : String → InFlightTracker → InFlightTracker
release job t = elim (t.counts job) [
  | none ↦ t
  | some c ↦ record { counts = put job ((c + 2 ^ 64 - 1) % 2 ^ 64) t.counts }
]

-- What tasks do with a tracker: they take a guard for a job, or drop one that is held.
pub data Event : Type 0 where
  tracked dropped : String → Event

-- The jobs of the guards that are live, newest first; dropping takes out one guard of the job.
pub drop_guard : String → List String → List String
drop_guard job [] = []
drop_guard job (g ∷ gs) = let rest = drop_guard job gs in if g == job then gs else g ∷ rest

pub guards_of : String → List String → ℕ
guards_of job [] = 0
guards_of job (g ∷ gs) = let rest = guards_of job gs in if g == job then suc rest else rest

pub after : List String → Event → List String
unfolding drop_guard
after gs (tracked job) = job ∷ gs
after gs (dropped job) = drop_guard job gs

pub step : InFlightTracker → Event → InFlightTracker
unfolding track release
step t (tracked job) = track job t
step t (dropped job) = release job t

pub run : InFlightTracker → List Event → InFlightTracker
unfolding step
run t [] = t
run t (e ∷ es) = run (step t e) es

pub live : List String → List Event → List String
unfolding after
live gs [] = gs
live gs (e ∷ es) = live (after gs e) es

-- A guard is dropped only while it is held, and there are fewer than 2 ^ 64 guards.
abbrev pub Valid : List String → List Event → Type 0
Valid gs [] = Unit
Valid gs (tracked job ∷ es) = (guards_of job gs + 1 < 2 ^ 64) × Valid (job ∷ gs) es
Valid gs (dropped job ∷ es) = (0 < guards_of job gs) × Valid (drop_guard job gs) es

guards_of-drop_guard :
    (job k : String) (gs : List String)
    → guards_of k (drop_guard job gs) ≡ (if job == k then guards_of k gs - 1 else guards_of k gs)
unfolding guards_of drop_guard
guards_of-drop_guard job k [] = ground arith
guards_of-drop_guard job k (g ∷ gs) =
    ground (arith, guards_of-drop_guard job k gs, eq_iff job k, eq_iff g job, eq_iff g k)

abbrev Counts : List String → InFlightTracker → Type 0
Counts gs t = (job : String) → count job t ≡ guards_of job gs

step_tracked :
    (gs : List String) (t : InFlightTracker) (job : String)
    → guards_of job gs + 1 < 2 ^ 64
    → Counts gs t
    → Counts (job ∷ gs) (track job t)
unfolding track count guards_of
step_tracked gs t job h c k = ground (arith, c job, c k, eq_iff job k)

step_dropped :
    (gs : List String) (t : InFlightTracker) (job : String)
    → 0 < guards_of job gs
    → guards_of job gs < 2 ^ 64
    → Counts gs t
    → Counts (drop_guard job gs) (release job t)
unfolding release count
step_dropped gs t job h b c k =
    ground (arith, c job, c k, eq_iff job k, guards_of-drop_guard job k gs)

abbrev Fits : List String → Type 0
Fits gs = (job : String) → guards_of job gs < 2 ^ 64

Fits-tracked :
    (gs : List String) (job : String) → guards_of job gs + 1 < 2 ^ 64 → Fits gs → Fits (job ∷ gs)
unfolding guards_of
Fits-tracked gs job h f k = ground (arith, f k, eq_iff job k)

Fits-dropped : (gs : List String) (job : String) → Fits gs → Fits (drop_guard job gs)
Fits-dropped gs job f k = ground (arith, f k, guards_of-drop_guard job k gs)

run-Counts :
    (gs : List String) (es : List Event) (t : InFlightTracker)
    → Valid gs es
    → Fits gs
    → Counts gs t
    → Counts (live gs es) (run t es)
unfolding run live
run-Counts gs [] t v f c = c
run-Counts gs (tracked job ∷ es) t v f c =
    run-Counts (job ∷ gs) es (track job t) v.1 (Fits-tracked gs job v.0 f)
      (step_tracked gs t job v.0 c)
run-Counts gs (dropped job ∷ es) t v f c =
    run-Counts (drop_guard job gs) es (release job t) v.1 (Fits-dropped gs job f)
      (step_dropped gs t job v.0 (f job) c)

has_in_flight-count :
    (job : String) (t : InFlightTracker) → has_in_flight job t ≡ ltb 0 (count job t)
unfolding has_in_flight count
has_in_flight-count job t = ground arith

-- After any sequence of guards taken and dropped, of fewer than 2 ^ 64 guards at a time, the tracker
-- counts for each job exactly the guards that are live, and `has_in_flight` says whether there is
-- one: no guard is lost or counted twice, and no job sees another's.
pub count-run :
    (es : List Event) (job : String)
    → Valid [] es
    → (count job (run new es) ≡ guards_of job (live [] es))
      × (has_in_flight job (run new es) ≡ ltb 0 (guards_of job (live [] es)))
count-run es job v =
    let c : count job (run new es) ≡ guards_of job (live [] es) =
      run-Counts [] es new v (unfold guards_of in λ k. omega arith)
        (unfold count guards_of in λ k. refl) job in
    (c, rw (has_in_flight-count, c))
