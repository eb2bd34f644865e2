-- ===== src/Waker/Permits.antt =====
-- coordinator.rs: the permits of the semaphore bound the wake tasks that call the orchestrator.
use nomad_scale_to_zero.Prelude.{
  ℕ, zero, suc, ◌+◌, ◌-◌, ◌≤◌, ◌<◌, ◌≡◌, nat_eq, update, refl, arith, Bool-cases, inl, inr, String,
}
use nomad_scale_to_zero.Waker.State.{WakeState, set_dormant, set_ready}
use nomad_scale_to_zero.Waker.Coordinator.{WakeCoordinator, mark}
use nomad_scale_to_zero.Waker.Tasks.{Request, enter, Wake, scaling, broken, answer, awaits}
use nomad_scale_to_zero.Waker.System.{
  System, set_wake, set_permits, Step, Failure, refused, unhealthy, abandoned, Refresh, Reset,
  endpoint_forgotten, endpoint_cached, marked_dormant, marked_ready, job_forgotten, edit, Run, here,
  next, fail, refreshed, discarded, init, called, accessed, answered, received, timed_out, dropped,
  spawned, acquired, scaled, healthy, published, run_request, run_wake,
}

-- The permits that a wake task holds.
abbrev pub held : Wake → ℕ
held (scaling _ _) = 1
held _ = 0

-- Those that the tasks below `n` hold.
abbrev pub held_below : ℕ → (ℕ → Wake) → ℕ
held_below zero f = 0
held_below (suc n) f = held (f n) + held_below n f

held_below-update_above :
    (n : ℕ) (f : ℕ → Wake) (i : ℕ) (k : Wake) → n ≤ i → held_below n (update f i k) ≡ held_below n f
held_below-update_above zero f i k h = refl
held_below-update_above (suc n) f i k h = ground (arith, held_below-update_above n f i k)

held_below-update :
    (n : ℕ) (f : ℕ → Wake) (i : ℕ) (k : Wake)
    → i < n
    → held_below n (update f i k) + held (f i) ≡ held_below n f + held k
held_below-update zero f i k h = absurd (omega arith)
held_below-update (suc n) f i k h = elim (Bool-cases (nat_eq i n)) [
  | inl e ↦
      (let same : i ≡ n = ground (arith, e) in
        rw e (rw same (omega (arith, held_below-update_above n f n k))))
  | inr e ↦ rw e (omega (arith, held_below-update n f i k (ground (arith, e))))
]

held_below-cong :
    (n : ℕ) (f g : ℕ → Wake) → ((j : ℕ) → held (f j) ≡ held (g j)) → held_below n f ≡ held_below n g
held_below-cong zero f g h = refl
held_below-cong (suc n) f g h = omega (arith, h n, held_below-cong n f g h)

held_below_mono : (m n : ℕ) (f : ℕ → Wake) → m ≤ n → held_below m f ≤ held_below n f
held_below_mono m zero f h = ground arith
held_below_mono m (suc n) f h = elim (Bool-cases (nat_eq m (suc n))) [
  | inl e ↦ (let same : m ≡ suc n = ground (arith, e) in rw same (omega arith))
  | inr e ↦ omega (arith, held_below_mono m n f (ground (arith, e)))
]

-- The free permits and those that are held are `n` together, once all the tasks are counted that hold
-- one: those below some number.
abbrev pub Conserved : ℕ → System → Type 0
Conserved n s = (all : ℕ) × ((m : ℕ) → all ≤ m → held_below m s.wake + s.coordinator.permits ≡ n)

module _ (n : ℕ) (s : System) (v : Conserved n s) where
  same-Conserved :
      (t : System)
      → t.coordinator.permits ≡ s.coordinator.permits
      → ((j : ℕ) → held (t.wake j) ≡ held (s.wake j))
      → Conserved n t
  same-Conserved t p h =
      (v.0, λ m le. omega (arith, p, held_below-cong m t.wake s.wake h, v.1 m le))

  -- A task takes a permit, or gives it back.
  taken-Conserved :
      (i : ℕ) (k : Wake)
      → held (s.wake i) ≡ 0
      → held k ≡ 1
      → 0 < s.coordinator.permits
      → Conserved n (set_wake i k (set_permits (s.coordinator.permits - 1) s))
  taken-Conserved i k a b p = (
    v.0 + suc i,
    λ m le.
        omega
          (arith, v.1 m (omega (arith, le)), held_below-update m s.wake i k (omega (arith, le))),
  )

  given-Conserved :
      (i : ℕ) (k : Wake)
      → held (s.wake i) ≡ 1
      → held k ≡ 0
      → Conserved n (set_wake i k (set_permits (s.coordinator.permits + 1) s))
  given-Conserved i k a b = (
    v.0 + suc i,
    λ m le.
        omega
          (arith, v.1 m (omega (arith, le)), held_below-update m s.wake i k (omega (arith, le))),
  )

  moved-Conserved : (i : ℕ) (k : Wake) → held k ≡ held (s.wake i) → Conserved n (set_wake i k s)
  moved-Conserved i k h = same-Conserved (set_wake i k s) refl (λ (j : ℕ). ground (arith, h))

  run_request-Conserved : (i : ℕ) (q : Request) → s.request i ≡ q → Conserved n (run_request i s)
  unfolding run_request
  run_request-Conserved i (enter reg) e =
      same-Conserved (run_request i s) (ground arith) (λ (j : ℕ). refl)
  run_request-Conserved i q e = same-Conserved (run_request i s) (ground arith) (λ (j : ℕ). refl)

  run_wake-Conserved : (i : ℕ) (k : Wake) → s.wake i ≡ k → Conserved n (run_wake i s)
  unfolding run_wake
  run_wake-Conserved i (broken reg r x) e =
      same-Conserved (run_wake i s) (ground arith) (λ (j : ℕ). ground arith)
  run_wake-Conserved i k e = same-Conserved (run_wake i s) (ground arith) (λ (j : ℕ). ground arith)

Step-Conserved : (n : ℕ) {s t : System} → Step s t → Conserved n s → Conserved n t
unfolding answer awaits
Step-Conserved n {s} (accessed i) v = run_request-Conserved n s v i (s.request i) refl
Step-Conserved n {s} (published i) v = run_wake-Conserved n s v i (s.wake i) refl
Step-Conserved n {s} (called i reg e) v = v
Step-Conserved n {s} (answered i reg a e) v = v
Step-Conserved n {s} (received i reg r m box e) v = v
Step-Conserved n {s} (timed_out i reg r e) v = v
Step-Conserved n {s} (dropped i e) v = v
Step-Conserved n {s} (spawned i reg r box e u) v = moved-Conserved n s v i _ (ground arith)
Step-Conserved n {s} (acquired i reg r e p) v = taken-Conserved n s v i _ (ground arith) refl p
Step-Conserved n {s} (scaled i reg r e) v = given-Conserved n s v i _ (ground arith) refl
Step-Conserved n {s} (healthy i reg r ep e) v = moved-Conserved n s v i _ (ground arith)

Failure-Conserved : (n : ℕ) {s t : System} → Failure s t → Conserved n s → Conserved n t
Failure-Conserved n {s} (refused i reg r x e) v = given-Conserved n s v i _ (ground arith) refl
Failure-Conserved n {s} (unhealthy i reg r x e) v = moved-Conserved n s v i _ (ground arith)
Failure-Conserved n {s} (abandoned i reg r e l) v = moved-Conserved n s v i _ (ground arith)

mark-permits :
    (f : WakeState → WakeState) (key : String) (c : WakeCoordinator)
    → (mark f key c).permits ≡ c.permits
mark-permits f key c = ground arith

mark-Conserved :
    (n : ℕ) (s : System) (f : WakeState → WakeState) (key : String)
    → Conserved n s
    → Conserved n (edit (mark f key) s)
mark-Conserved n s f key v =
    same-Conserved n s v (edit (mark f key) s) (mark-permits f key s.coordinator) (λ (j : ℕ). refl)

Refresh-Conserved : (n : ℕ) {s t : System} → Refresh s t → Conserved n s → Conserved n t
Refresh-Conserved n (endpoint_cached key ep) v = v
Refresh-Conserved n {s} (marked_ready key) v = mark-Conserved n s set_ready key v

Reset-Conserved : (n : ℕ) {s t : System} → Reset s t → Conserved n s → Conserved n t
Reset-Conserved n (endpoint_forgotten key) v = v
Reset-Conserved n {s} (marked_dormant key) v = mark-Conserved n s set_dormant key v
Reset-Conserved n (job_forgotten key) v = v

init-held : (n secs m : ℕ) → held_below m (init n secs).wake ≡ 0
unfolding init
init-held n secs zero = refl
init-held n secs (suc m) = omega (arith, init-held n secs m)

init-Conserved : (n secs : ℕ) → Conserved n (init n secs)
unfolding init
init-Conserved n secs = (0, λ m le. omega (arith, init-held n secs m))

Run-Conserved : (n secs : ℕ) {s : System} → Run (init n secs) s → Conserved n s
Run-Conserved n secs here = init-Conserved n secs
Run-Conserved n secs (next r st) = Step-Conserved n st (Run-Conserved n secs r)
Run-Conserved n secs (fail r st) = Failure-Conserved n st (Run-Conserved n secs r)
Run-Conserved n secs (refreshed r st) = Refresh-Conserved n st (Run-Conserved n secs r)
Run-Conserved n secs (discarded r st) = Reset-Conserved n st (Run-Conserved n secs r)

-- No permit is lost: in every run of a coordinator that was made for `n` concurrent calls of Nomad,
-- failed and abandoned wakes and calls of `mark_dormant`, `invalidate` and `refresh_endpoint` included,
-- the free permits and those of the tasks that are scaling a job up are together exactly `n`.
pub permits-Conserved : (n secs : ℕ) {s : System} → Run (init n secs) s → Conserved n s
permits-Conserved n secs run = Run-Conserved n secs run

-- In every run of a coordinator that was made for `n` concurrent calls of Nomad, failed and abandoned
-- wakes included, at most `n` wake tasks are scaling a job up at once, out of however many tasks there
-- are, and the free permits are never more than those that these leave.
pub scaling_bounded :
    (n secs : ℕ) {s : System} (tasks : ℕ)
    → Run (init n secs) s
    → (held_below tasks s.wake ≤ n) × (s.coordinator.permits ≤ n - held_below tasks s.wake)
scaling_bounded n secs {s} tasks run =
    let (all, sum) = Run-Conserved n secs run in
    let total = sum (all + tasks) (omega arith) in
    let part = held_below_mono tasks (all + tasks) s.wake (omega arith) in
    (omega (arith, total, part), omega (arith, total, part))
