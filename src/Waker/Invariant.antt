-- ===== src/Waker/Invariant.antt =====
-- coordinator.rs: what every step keeps of the claims on the wake states.
use nomad_scale_to_zero.Prelude.{ℕ, ◌<◌, ◌≡◌, refl, some, arith, ◌⊎◌, inl, inr}
use nomad_scale_to_zero.Waker.State.{set_ready}
use nomad_scale_to_zero.Waker.Tasks.{Request, enter, racing, Wake, broken, answer, awaits}
use nomad_scale_to_zero.Waker.System.{
  System, set_request, set_wake, set_permits, Step, Failure, refused, unhealthy, abandoned, Refresh,
  endpoint_cached, marked_ready, Reach, here, next, fail, refreshed, init, called, accessed,
  answered, received, timed_out, dropped, spawned, acquired, scaled, healthy, published,
  run_request, run_wake,
}
use nomad_scale_to_zero.Waker.Claims.{claim_request, claim, cell_request, cell_wake, Inv}

module _ (s : System) (v : Inv s) (i : ℕ) where
  run_request-Inv : (q : Request) → s.request i ≡ q → Inv (run_request i s)
  unfolding run_request
  run_request-Inv (racing reg t) e = record {
    jobs_bound = λ k r h. ground (arith, v.jobs_bound k r);
    request_bound = λ j r h. ground (arith, v.request_bound j r);
    wake_bound = λ j r h. ground (arith, v.wake_bound j r);
    unique = λ a b r h k. ground (arith, v.unique a b r, v.busy a r, v.busy b r);
    busy = λ a r h. ground (arith, v.busy a r);
  }
  run_request-Inv (enter reg) e = record {
    jobs_bound = λ k r h. ground (arith, v.jobs_bound k r);
    request_bound = λ j r h. ground (arith, v.request_bound j r, v.jobs_bound reg.job_id r);
    wake_bound = λ j r h. ground (arith, v.wake_bound j r);
    unique = λ a b r h k. ground (arith, v.unique a b r);
    busy = λ a r h. ground (arith, v.busy a r, v.request_bound a r, v.wake_bound a r);
  }
  run_request-Inv q e = record {
    jobs_bound = λ k r h. ground (arith, v.jobs_bound k r);
    request_bound = λ j r h. ground (arith, v.request_bound j r);
    wake_bound = λ j r h. ground (arith, v.wake_bound j r);
    unique = λ a b r h k. ground (arith, v.unique a b r);
    busy = λ a r h. ground (arith, v.busy a r);
  }

  run_wake-Inv : (k : Wake) → s.wake i ≡ k → Inv (run_wake i s)
  unfolding run_wake
  run_wake-Inv (broken reg t x) e = record {
    jobs_bound = λ k r h. ground (arith, v.jobs_bound k r);
    request_bound = λ j r h. ground (arith, v.request_bound j r);
    wake_bound = λ j r h. ground (arith, v.wake_bound j r, v.wake_bound i r);
    unique = λ a b r h k. ground (arith, v.unique a b r);
    busy = λ a r h. ground (arith, v.busy a r, v.unique a i r);
  }
  run_wake-Inv k e = record {
    jobs_bound = λ k r h. ground (arith, v.jobs_bound k r);
    request_bound = λ j r h. ground (arith, v.request_bound j r);
    wake_bound = λ j r h. ground (arith, v.wake_bound j r, v.wake_bound i r);
    unique = λ a b r h k. ground (arith, v.unique a b r);
    busy = λ a r h. ground (arith, v.busy a r);
  }

-- The tasks of `t` refer to and claim no more than those of `s`, over the same shared state.
record Follows (s t : System) : Type 0 where
  jobs : t.coordinator.jobs ≡ s.coordinator.jobs
  cells : t.coordinator.cells ≡ s.coordinator.cells
  fresh : t.coordinator.next ≡ s.coordinator.next
  requests :
      (j r : ℕ)
      → cell_request (t.request j) ≡ some r
      → (cell_request (s.request j) ≡ some r) ⊎ (cell_wake (s.wake j) ≡ some r)
  wakes :
      (j r : ℕ)
      → cell_wake (t.wake j) ≡ some r
      → (cell_request (s.request j) ≡ some r) ⊎ (cell_wake (s.wake j) ≡ some r)
  claims :
      (j r : ℕ) → claim (t.request j) (t.wake j) ≡ some r → claim (s.request j) (s.wake j) ≡ some r

Follows-Inv : {s t : System} → Follows s t → Inv s → Inv t
Follows-Inv {s} {t} f v = record {
  jobs_bound = λ k r h. rw f.fresh (v.jobs_bound k r (rw (← f.jobs) h));
  request_bound = λ j r h. bound j r (f.requests j r h);
  wake_bound = λ j r h. bound j r (f.wakes j r h);
  unique = λ a b r h k. v.unique a b r (f.claims a r h) (f.claims b r k);
  busy = λ a r h. rw f.cells (v.busy a r (f.claims a r h));
}
  where
    bound :
        (j r : ℕ)
        → (cell_request (s.request j) ≡ some r) ⊎ (cell_wake (s.wake j) ≡ some r)
        → r < t.coordinator.next
    bound j r (inl h) = rw f.fresh (v.request_bound j r h)
    bound j r (inr h) = rw f.fresh (v.wake_bound j r h)

module _ (s : System) (i : ℕ) where
  -- Request task `i` now stands at `q`.
  request-Follows :
      (q : Request)
      → ((r : ℕ) → cell_request q ≡ some r → cell_request (s.request i) ≡ some r)
      → ((r : ℕ) → claim_request q ≡ some r → claim_request (s.request i) ≡ some r)
      → Follows s (set_request i q s)
  request-Follows q f g = record {
    jobs = refl;
    cells = refl;
    fresh = refl;
    requests = λ j r h. ground (arith, f r);
    wakes = λ j r h. inr h;
    claims = λ j r h. ground (arith, g r);
  }

  -- Wake task `i`, which has been spawned, now stands at `k`.
  wake-Follows :
      (k : Wake) (n : ℕ)
      → ((r : ℕ) → cell_wake k ≡ some r → cell_wake (s.wake i) ≡ some r)
      → ((r : ℕ) (q : Request) → claim q k ≡ some r → claim q (s.wake i) ≡ some r)
      → Follows s (set_wake i k (set_permits n s))
  wake-Follows k n f g = record {
    jobs = refl;
    cells = refl;
    fresh = refl;
    requests = λ j r h. inl h;
    wakes = λ j r h. ground (arith, f r);
    claims = λ j r h. ground (arith, g r (s.request i));
  }

-- Every step keeps the invariant.
pub Step-Inv : {s t : System} → Step s t → Inv s → Inv t
unfolding answer awaits
Step-Inv {s} (accessed i) v = run_request-Inv s v i (s.request i) refl
Step-Inv {s} (published i) v = run_wake-Inv s v i (s.wake i) refl
Step-Inv {s} (called i reg e) v = Follows-Inv (request-Follows s i _ (λ r h. cc) (λ r h. cc)) v
Step-Inv {s} (answered i reg a e) v =
    Follows-Inv (request-Follows s i _ (λ r h. ground arith) (λ r h. ground arith)) v
Step-Inv {s} (received i reg r m box e) v =
    Follows-Inv (request-Follows s i _ (λ r h. cc) (λ r h. cc)) v
Step-Inv {s} (timed_out i reg r e) v = Follows-Inv (request-Follows s i _ (λ r h. cc) (λ r h. cc)) v
Step-Inv {s} (dropped i e) v = Follows-Inv (request-Follows s i _ (λ r h. cc) (λ r h. cc)) v
Step-Inv {s} (acquired i reg r e p) v =
    Follows-Inv (wake-Follows s i _ _ (λ r h. ground arith) (λ r q h. ground arith)) v
Step-Inv {s} (scaled i reg r e) v =
    Follows-Inv (wake-Follows s i _ _ (λ r h. ground arith) (λ r q h. ground arith)) v
Step-Inv {s} (healthy i reg r ep e) v =
    Follows-Inv (wake-Follows s i _ _ (λ r h. ground arith) (λ r q h. ground arith)) v
Step-Inv {s} (spawned i reg r box e u) v =
    Follows-Inv
      (record {
        jobs = refl;
        cells = refl;
        fresh = refl;
        requests = λ j r h. ground arith;
        wakes = λ j r h. ground arith;
        claims = λ j r h. ground arith;
      })
      v

pub Failure-Inv : {s t : System} → Failure s t → Inv s → Inv t
Failure-Inv {s} (refused i reg r x e) v =
    Follows-Inv (wake-Follows s i _ _ (λ r h. ground arith) (λ r q h. ground arith)) v
Failure-Inv {s} (unhealthy i reg r x e) v =
    Follows-Inv (wake-Follows s i _ _ (λ r h. ground arith) (λ r q h. ground arith)) v
Failure-Inv {s} (abandoned i reg r e l) v =
    Follows-Inv (wake-Follows s i _ _ (λ r h. ground arith) (λ r q h. ground arith)) v

Refresh-Inv : {s t : System} → Refresh s t → Inv s → Inv t
unfolding set_ready
Refresh-Inv {s} (endpoint_cached key ep) v = record {
  jobs_bound = v.jobs_bound;
  request_bound = v.request_bound;
  wake_bound = v.wake_bound;
  unique = v.unique;
  busy = v.busy;
}
Refresh-Inv {s} (marked_ready key) v = record {
  jobs_bound = λ k r h. ground (arith, v.jobs_bound k r);
  request_bound = λ j r h. ground (arith, v.request_bound j r);
  wake_bound = λ j r h. ground (arith, v.wake_bound j r);
  unique = v.unique;
  busy = λ j r h. ground (arith, v.busy j r);
}

init-Inv : (nomad_concurrency secs : ℕ) → Inv (init nomad_concurrency secs)
unfolding init
init-Inv n secs = record {
  jobs_bound = λ k r h. cc;
  request_bound = λ i r h. cc;
  wake_bound = λ i r h. cc;
  unique = λ i j r h k. cc;
  busy = λ i r h. cc;
}

-- It holds in every state that a run without a reset reaches, failed wakes included.
pub Reach-Inv : (n secs : ℕ) {s : System} → Reach (init n secs) s → Inv s
Reach-Inv n secs here = init-Inv n secs
Reach-Inv n secs (next r st) = Step-Inv st (Reach-Inv n secs r)
Reach-Inv n secs (fail r st) = Failure-Inv st (Reach-Inv n secs r)
Reach-Inv n secs (refreshed r st) = Refresh-Inv st (Reach-Inv n secs r)
