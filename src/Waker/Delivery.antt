-- ===== src/Waker/Delivery.antt =====
-- coordinator.rs: what reaches the receivers of the broadcast.
use nomad_scale_to_zero.Prelude.{ℕ, ◌≡◌, ◌≢◌, refl, Option, none, some, [], ◌∷◌, arith}
use nomad_scale_to_zero.Core.Job.{JobRegistration}
use nomad_scale_to_zero.Waker.Tasks.{
  Request, gone, fast, waiting, returned, Wake, unborn, acquiring, scaling, polling, woke, inserted,
  readied, broken, reset, answer, awaits,
}
use nomad_scale_to_zero.Waker.System.{
  System, Step, Failure, refused, unhealthy, abandoned, called, accessed, answered, received,
  timed_out, dropped, spawned, acquired, scaled, healthy, published, Refresh, Reset,
  endpoint_forgotten, endpoint_cached, marked_dormant, marked_ready, job_forgotten, Run, here, next,
  fail, refreshed, discarded, init, run_request, run_wake,
}

-- The wake state on which the task has yet to broadcast.
abbrev pub pending : Wake → Option ℕ
pending (acquiring _ r) = some r
pending (scaling _ r) = some r
pending (polling _ r) = some r
pending (woke _ r _) = some r
pending (inserted _ r _) = some r
pending (readied _ r _) = some r
pending (broken _ r _) = some r
pending (reset _ r _) = some r
pending _ = none

-- A call that has spawned waits, or has returned; while its mailbox is empty its own task is yet to
-- broadcast on the state on which it waits.
abbrev Heard : Request → Wake → Type 0
Heard q unborn = Unit
Heard (waiting reg r []) k = pending k ≡ some r
Heard (waiting reg r (m ∷ box)) k = Unit
Heard (returned x) k = Unit
Heard gone k = Unit
Heard _ k = ⊥

module _ (s : System) (v : (j : ℕ) → Heard (s.request j) (s.wake j)) (i j : ℕ) where
  run_request-Heard :
      (q : Request)
      → s.request i ≡ q
      → Heard ((run_request i s).request j) ((run_request i s).wake j)
  unfolding run_request
  run_request-Heard (fast reg) e = ground (arith, v j)
  run_request-Heard q e = ground (arith, v j)

  run_wake-Heard :
      (k : Wake) (q : Request)
      → s.wake i ≡ k
      → s.request j ≡ q
      → Heard ((run_wake i s).request j) ((run_wake i s).wake j)
  unfolding run_wake
  run_wake-Heard (readied reg r ep) (waiting x t []) e f = ground (arith, v j)
  run_wake-Heard (readied reg r ep) (waiting x t (m ∷ box)) e f = ground (arith, v j)
  run_wake-Heard (reset reg r ep) (waiting x t []) e f = ground (arith, v j)
  run_wake-Heard (reset reg r ep) (waiting x t (m ∷ box)) e f = ground (arith, v j)
  run_wake-Heard k q e f = ground (arith, v j)

Step-Heard :
    {s t : System}
    → Step s t
    → ((j : ℕ) → Heard (s.request j) (s.wake j))
    → (j : ℕ) → Heard (t.request j) (t.wake j)
unfolding answer awaits
Step-Heard {s} (accessed i) v j = run_request-Heard s v i j (s.request i) refl
Step-Heard {s} (published i) v j = run_wake-Heard s v i j (s.wake i) (s.request j) refl refl
Step-Heard {s} (called i reg e) v j = ground (arith, v j)
Step-Heard {s} (answered i reg a e) v j = ground (arith, v j)
Step-Heard {s} (received i reg t m box e) v j = ground (arith, v j)
Step-Heard {s} (timed_out i reg t e) v j = ground (arith, v j)
Step-Heard {s} (dropped i e) v j = ground (arith, v j)
Step-Heard {s} (spawned i reg t [] e u) v j = ground (arith, v j)
Step-Heard {s} (spawned i reg t (m ∷ box) e u) v j = ground (arith, v j)
Step-Heard {s} (acquired i reg t e p) v j = ground (arith, v j)
Step-Heard {s} (scaled i reg t e) v j = ground (arith, v j)
Step-Heard {s} (healthy i reg t ep e) v j = ground (arith, v j)

Failure-Heard :
    {s t : System}
    → Failure s t
    → ((j : ℕ) → Heard (s.request j) (s.wake j))
    → (j : ℕ) → Heard (t.request j) (t.wake j)
Failure-Heard (refused i reg r x e) v j = ground (arith, v j)
Failure-Heard (unhealthy i reg r x e) v j = ground (arith, v j)
Failure-Heard (abandoned i reg r e l) v j = ground (arith, v j)

Refresh-Heard :
    {s t : System}
    → Refresh s t
    → ((j : ℕ) → Heard (s.request j) (s.wake j))
    → (j : ℕ) → Heard (t.request j) (t.wake j)
Refresh-Heard (endpoint_cached key ep) v j = v j
Refresh-Heard (marked_ready key) v j = v j

Reset-Heard :
    {s t : System}
    → Reset s t
    → ((j : ℕ) → Heard (s.request j) (s.wake j))
    → (j : ℕ) → Heard (t.request j) (t.wake j)
Reset-Heard (endpoint_forgotten key) v j = v j
Reset-Heard (marked_dormant key) v j = v j
Reset-Heard (job_forgotten key) v j = v j

Run-Heard :
    (n secs : ℕ) {s : System} → Run (init n secs) s → (j : ℕ) → Heard (s.request j) (s.wake j)
unfolding init
Run-Heard n secs here j = tt
Run-Heard n secs (next r st) j = Step-Heard st (Run-Heard n secs r) j
Run-Heard n secs (fail r st) j = Failure-Heard st (Run-Heard n secs r) j
Run-Heard n secs (refreshed r st) j = Refresh-Heard st (Run-Heard n secs r) j
Run-Heard n secs (discarded r st) j = Reset-Heard st (Run-Heard n secs r) j

Heard-pending :
    (q : Request) (k : Wake) (reg : JobRegistration) (r : ℕ)
    → Heard q k
    → q ≡ waiting reg r []
    → k ≢ unborn
    → pending k ≡ some r
Heard-pending q unborn reg r h e u = absurd (u refl)
Heard-pending q (acquiring x t) reg r h e u = ground arith
Heard-pending q k reg r h e u = ground arith

-- The call that has spawned the wake task cannot miss its result: in every run, whatever is marked
-- dormant, invalidated or refreshed meanwhile, while it waits with an empty mailbox, its task is still to broadcast on the state on which it waits.
pub winner_hears :
    (n secs : ℕ) {s : System} (i r : ℕ) (reg : JobRegistration)
    → Run (init n secs) s
    → s.request i ≡ waiting reg r []
    → s.wake i ≢ unborn
    → pending (s.wake i) ≡ some r
winner_hears n secs {s} i r reg run e u =
    Heard-pending (s.request i) (s.wake i) reg r (Run-Heard n secs run i) e u
