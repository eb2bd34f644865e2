-- ===== src/Waker/LateSubscriber.antt =====
-- coordinator.rs: a call that loads WAKING and subscribes only after the wake task has broadcast.
use nomad_scale_to_zero.Prelude.{ℕ, ◌<◌, ◌≡◌, ◌≢◌, ◌⊎◌, inl, refl, some, [], arith}
use nomad_scale_to_zero.Core.Job.{JobRegistration}
use nomad_scale_to_zero.Core.Error.{err, wake_timeout}
use nomad_scale_to_zero.Waker.State.{state_ready, set_ready}
use nomad_scale_to_zero.Waker.Tasks.{
  Request, gone, enter, subscribing, waiting, returned, Wake, inserted, answer, awaits,
}
use nomad_scale_to_zero.Waker.System.{
  System, Step, Failure, refused, unhealthy, abandoned, called, accessed, answered, received,
  timed_out, dropped, spawned, acquired, scaled, healthy, published, Refresh, endpoint_cached,
  marked_ready, Reach, here, next, fail, refreshed, run_request, run_wake,
}
use nomad_scale_to_zero.Waker.Claims.{claim_request, status}
use nomad_scale_to_zero.Waker.Delivery.{pending}

-- A call that has loaded WAKING and subscribes after the broadcast.
abbrev pub Missed : JobRegistration → ℕ → ℕ → Request → Type 0
Missed reg r secs q =
    (q ≡ subscribing reg r)
    ⊎ ((q ≡ waiting reg r []) ⊎ ((q ≡ gone) ⊎ (q ≡ returned (err (wake_timeout reg.job_id secs)))))

-- The state is READY, and no task is yet to broadcast on it or to spawn one that will.
pub record Settled (reg : JobRegistration) (i r secs : ℕ) (s : System) : Type 0 where
  pub is_ready : status s r ≡ state_ready
  pub known : r < s.coordinator.next
  pub timeout : s.coordinator.wake_timeout ≡ secs
  pub calls : (j : ℕ) → claim_request (s.request j) ≢ some r
  pub tasks : (j : ℕ) → pending (s.wake j) ≢ some r
  pub missed : Missed reg r secs (s.request i)

module _ {reg : JobRegistration} {i r secs : ℕ} (s : System) (v : Settled reg i r secs s)
    (a : ℕ) where
  run_request-Settled : (q : Request) → s.request a ≡ q → Settled reg i r secs (run_request a s)
  unfolding run_request
  run_request-Settled (enter x) e = record {
    is_ready = ground (arith, v.is_ready);
    known = ground (arith, v.known);
    timeout = ground (arith, v.timeout);
    calls = λ j h. ground (arith, v.calls j);
    tasks = v.tasks;
    missed = ground (arith, v.missed);
  }
  run_request-Settled q e = record {
    is_ready = ground (arith, v.is_ready);
    known = ground (arith, v.known);
    timeout = ground (arith, v.timeout);
    calls = λ j h. ground (arith, v.calls j, v.is_ready);
    tasks = v.tasks;
    missed = ground (arith, v.missed);
  }

  run_wake-Settled : (k : Wake) → s.wake a ≡ k → Settled reg i r secs (run_wake a s)
  unfolding run_wake
  run_wake-Settled (inserted x t ep) e = record {
    is_ready = ground (arith, v.is_ready, v.tasks a);
    known = ground (arith, v.known);
    timeout = ground (arith, v.timeout);
    calls = λ j h. ground (arith, v.calls j);
    tasks = λ j h. ground (arith, v.tasks j, v.tasks a);
    missed = ground (arith, v.missed, v.tasks a);
  }
  run_wake-Settled k e = record {
    is_ready = ground (arith, v.is_ready, v.tasks a);
    known = ground (arith, v.known);
    timeout = ground (arith, v.timeout);
    calls = λ j h. ground (arith, v.calls j);
    tasks = λ j h. ground (arith, v.tasks j, v.tasks a);
    missed = ground (arith, v.missed, v.tasks a);
  }

module _ {reg : JobRegistration} {i r secs : ℕ} where
  Step-Settled : {s t : System} → Step s t → Settled reg i r secs s → Settled reg i r secs t
  unfolding answer awaits
  Step-Settled {s} (accessed a) v = run_request-Settled s v a (s.request a) refl
  Step-Settled {s} (published a) v = run_wake-Settled s v a (s.wake a) refl
  Step-Settled {s} (called a x e) v = record {
    is_ready = v.is_ready;
    known = v.known;
    timeout = v.timeout;
    calls = λ j h. ground (arith, v.calls j);
    tasks = v.tasks;
    missed = ground (arith, v.missed);
  }
  Step-Settled {s} (answered a x b e) v = record {
    is_ready = v.is_ready;
    known = v.known;
    timeout = v.timeout;
    calls = λ j h. ground (arith, v.calls j);
    tasks = v.tasks;
    missed = ground (arith, v.missed);
  }
  Step-Settled {s} (received a x n m box e) v = record {
    is_ready = v.is_ready;
    known = v.known;
    timeout = v.timeout;
    calls = λ j h. ground (arith, v.calls j);
    tasks = v.tasks;
    missed = ground (arith, v.missed);
  }
  Step-Settled {s} (timed_out a x n e) v = record {
    is_ready = v.is_ready;
    known = v.known;
    timeout = v.timeout;
    calls = λ j h. ground (arith, v.calls j);
    tasks = v.tasks;
    missed = ground (arith, v.missed, v.timeout);
  }
  Step-Settled {s} (dropped a e) v = record {
    is_ready = v.is_ready;
    known = v.known;
    timeout = v.timeout;
    calls = λ j h. ground (arith, v.calls j);
    tasks = v.tasks;
    missed = ground (arith, v.missed);
  }
  Step-Settled {s} (spawned a x n box e u) v = record {
    is_ready = v.is_ready;
    known = v.known;
    timeout = v.timeout;
    calls = λ j h. ground (arith, v.calls j);
    tasks = λ j h. ground (arith, v.tasks j, v.calls a);
    missed = ground (arith, v.missed);
  }
  Step-Settled {s} (acquired a x n e p) v = record {
    is_ready = v.is_ready;
    known = v.known;
    timeout = v.timeout;
    calls = v.calls;
    tasks = λ j h. ground (arith, v.tasks j, v.tasks a);
    missed = v.missed;
  }
  Step-Settled {s} (scaled a x n e) v = record {
    is_ready = v.is_ready;
    known = v.known;
    timeout = v.timeout;
    calls = v.calls;
    tasks = λ j h. ground (arith, v.tasks j, v.tasks a);
    missed = v.missed;
  }
  Step-Settled {s} (healthy a x n ep e) v = record {
    is_ready = v.is_ready;
    known = v.known;
    timeout = v.timeout;
    calls = v.calls;
    tasks = λ j h. ground (arith, v.tasks j, v.tasks a);
    missed = v.missed;
  }

  Failure-Settled : {s t : System} → Failure s t → Settled reg i r secs s → Settled reg i r secs t
  Failure-Settled (refused a x n y e) v = record {
    is_ready = v.is_ready;
    known = v.known;
    timeout = v.timeout;
    calls = v.calls;
    tasks = λ j h. ground (arith, v.tasks j, v.tasks a);
    missed = v.missed;
  }
  Failure-Settled (unhealthy a x n y e) v = record {
    is_ready = v.is_ready;
    known = v.known;
    timeout = v.timeout;
    calls = v.calls;
    tasks = λ j h. ground (arith, v.tasks j, v.tasks a);
    missed = v.missed;
  }
  Failure-Settled (abandoned a x n e l) v = record {
    is_ready = v.is_ready;
    known = v.known;
    timeout = v.timeout;
    calls = v.calls;
    tasks = λ j h. ground (arith, v.tasks j, v.tasks a);
    missed = v.missed;
  }

  Refresh-Settled : {s t : System} → Refresh s t → Settled reg i r secs s → Settled reg i r secs t
  unfolding set_ready
  Refresh-Settled (endpoint_cached key ep) v = record {
    is_ready = v.is_ready;
    known = v.known;
    timeout = v.timeout;
    calls = v.calls;
    tasks = v.tasks;
    missed = v.missed;
  }
  Refresh-Settled (marked_ready key) v = record {
    is_ready = ground (arith, v.is_ready);
    known = ground (arith, v.known);
    timeout = ground (arith, v.timeout);
    calls = v.calls;
    tasks = v.tasks;
    missed = v.missed;
  }

  Reach-Settled : {s t : System} → Settled reg i r secs s → Reach s t → Settled reg i r secs t
  Reach-Settled v here = v
  Reach-Settled v (next run st) = Step-Settled st (Reach-Settled v run)
  Reach-Settled v (fail run st) = Failure-Settled st (Reach-Settled v run)
  Reach-Settled v (refreshed run st) = Refresh-Settled st (Reach-Settled v run)

-- A call that has loaded WAKING from a state on which the wake task has meanwhile stored READY and
-- broadcast, and for which no other task is to broadcast, is never answered: in whatever run follows
-- in which nobody calls `mark_dormant` or `invalidate` and no refresh finds the job without an
-- endpoint, it is about to subscribe, waits with an empty mailbox, is dropped by its
-- client, or returns the wake timeout, although the job is ready.
pub late_subscriber :
    {s t : System} (i r : ℕ) (reg : JobRegistration)
    → s.request i ≡ subscribing reg r
    → status s r ≡ state_ready
    → r < s.coordinator.next
    → ((j : ℕ) → claim_request (s.request j) ≢ some r)
    → ((j : ℕ) → pending (s.wake j) ≢ some r)
    → Reach s t
    → Missed reg r s.coordinator.wake_timeout (t.request i) × (status t r ≡ state_ready)
late_subscriber {s} {t} i r reg e ready known calls tasks run =
    let v : Settled reg i r s.coordinator.wake_timeout t =
      Reach-Settled
        (record {
          is_ready = ready;
          known = known;
          timeout = refl;
          calls = calls;
          tasks = tasks;
          missed = inl e;
        })
        run in
    (v.missed, v.is_ready)
