-- ===== src/Nomad/Client/Answers.antt =====
-- client.rs: what the callers of the client are told.
use nomad_scale_to_zero.Prelude.{
  ℕ, String, Bool, true, some, List, [], ◌∷◌, find, ◌≡◌, refl, arith, ◌==◌, ◌↔◌, Option-cases,
  Bool-cases, inl, inr,
}
use nomad_scale_to_zero.Prelude.Text.{contains}
use nomad_scale_to_zero.Core.Job.{JobId, Endpoint}
use nomad_scale_to_zero.Core.Error.{job_not_found, deployment_in_progress, Result, ok, err}
use nomad_scale_to_zero.Core.Effect.{Exec, Reply, done, refused, ◌>>=◌}
use nomad_scale_to_zero.Nomad.Models.{Allocation, is_running}
use nomad_scale_to_zero.Nomad.Client.Endpoints.{extract_endpoint}
use nomad_scale_to_zero.Nomad.Client.{
  Outgoing, get, delete, Response, NomadClient, url, request, job_path, allocations_path,
  purge_path, post_count, read_job, read_allocations, read_stop, scaled_up, scaled_down, body_of,
  ensure_job_success, classify_job_error, get_job, get_allocations, stop_and_purge_job, is_blocked,
  scale_refused, scale_up, scale_down, get_job_count, get_healthy_endpoint,
}

module _ {W : Type 0} where
  -- Nomad answers, with a response of which `P` holds.
  abbrev pub Answers : (Response W → W → Type 0) → Reply (Response W) × W → Type 0
  Answers P (done resp, w) = P resp w
  Answers P (refused m, w) = ⊥

  asked :
      {B : Type 0} (P : Response W → W → Type 0) (c : NomadClient W) (out : Outgoing)
      (k : Response W → Exec W B) (a : Result B) (w : W) (x : Reply (Response W) × W)
      → c.send out w ≡ x
      → Answers P x
      → ((resp : Response W) (v : W) → P resp v → (k resp v).0 ≡ a)
      → ((request c out >>= k) w).0 ≡ a
  asked P c out k a w (done resp, v) e p h = rw e (h resp v p)
  asked P c out k a w (refused t, v) e p h = absurd p

  abbrev pub IsMissing : Response W → W → Type 0
  IsMissing resp w = resp.status ≡ 404

module _ {W : Type 0} (c : NomadClient W) (job : JobId)
    (missing : (out : Outgoing) (w : W) → Answers IsMissing (c.send out w)) where
  ensure_missing :
      (resp : Response W) (method path : String) (w : W)
      → resp.status ≡ 404
      → (ensure_job_success c resp method path job w).0 ≡ err (job_not_found job)
  unfolding ensure_job_success classify_job_error
  ensure_missing resp method path w h = ground arith

  refused_missing :
      (blocked : Result (Unit {0})) (resp : Response W) (w : W)
      → resp.status ≡ 404
      → (scale_refused c job blocked resp w).0 ≡ err (job_not_found job)
  unfolding scale_refused classify_job_error is_blocked
  refused_missing blocked resp w h = ground arith

  -- A call that every 404 fails.
  sent_missing :
      {B : Type 0} (out : Outgoing) (k : Response W → Exec W B) (w : W)
      → ((resp : Response W) (v : W) → resp.status ≡ 404 → (k resp v).0 ≡ err (job_not_found job))
      → ((request c out >>= k) w).0 ≡ err (job_not_found job)
  sent_missing out k w h =
      asked IsMissing c out k (err (job_not_found job)) w _ refl (missing out w) h

  get_job_missing : (w : W) → (get_job c job w).0 ≡ err (job_not_found job)
  unfolding get_job read_job
  get_job_missing w =
      sent_missing (get (url c (job_path c job))) (read_job c job) w
        λ resp v h. ground (arith, ensure_missing resp "GET" (job_path c job) v h)

  allocations_missing : (w : W) → (get_allocations c job w).0 ≡ err (job_not_found job)
  unfolding get_allocations read_allocations
  allocations_missing w =
      sent_missing (get (url c (allocations_path c job))) (read_allocations c job) w
        λ resp v h. ground (arith, ensure_missing resp "GET" (allocations_path c job) v h)

  -- While Nomad answers every request with 404, every operation on a job reports the job as not found,
  -- whatever the body of the answer says.
  pub missing_job-classified :
      (group : String) (n : ℕ) (w : W)
      → ((scale_up c job group n w).0 ≡ err (job_not_found job))
        × ((scale_down c job group w).0 ≡ err (job_not_found job))
        × ((get_job_count c job group w).0 ≡ err (job_not_found job))
        × ((get_healthy_endpoint c job w).0 ≡ err (job_not_found job))
        × ((stop_and_purge_job c job w).0 ≡ err (job_not_found job))
  unfolding scale_up scale_down get_job_count get_healthy_endpoint stop_and_purge_job scaled_up
      scaled_down read_stop
  missing_job-classified group n w = (
    sent_missing (post_count c job group n "nscale: scaling up on demand") (scaled_up c job) w
        λ resp v h. ground (arith, refused_missing (ok tt) resp v h),
    sent_missing (post_count c job group 0 "nscale: scaling to zero after idle") (scaled_down c job)
        w
        λ resp v h.
          ground (arith, refused_missing (err (deployment_in_progress job "scale down")) resp v h),
    ground (arith, get_job_missing w),
    ground (arith, allocations_missing w),
    sent_missing (delete (url c (purge_path c job))) (read_stop c job) w
        λ resp v h. ground (arith, ensure_missing resp "DELETE" (purge_path c job) v h),
  )

abbrev pub deploying : String
deploying = "scaling blocked due to active deployment"

-- What the body says without regard to case, where it can be read.
abbrev pub says : {W : Type 0} → NomadClient W → String → Response W → W → Bool
says c what resp w = contains what (c.to_lowercase (body_of c resp w).0)

module _ {W : Type 0} (c : NomadClient W) (job : JobId) where
  refused_up :
      (resp : Response W) (w : W)
      → resp.status ≡ 400
      → ((scaled_up c job resp w).0 ≡ ok tt) ↔ (says c deploying resp w ≡ true)
  unfolding scaled_up scale_refused
  refused_up resp w h = elim (Bool-cases (says c deploying resp w)) [
    | inl told ↦ (λ a. told, λ b. ground (arith, h, told))
    | inr silent ↦
        (λ a. absurd (ground (arith, h, silent, a)), λ b. absurd (ground (arith, silent, b)))
  ]

  refused_down :
      (resp : Response W) (w : W)
      → resp.status ≡ 400
      → ((scaled_down c job resp w).0 ≡ err (deployment_in_progress job "scale down"))
        ↔ (says c deploying resp w ≡ true)
  unfolding scaled_down scale_refused classify_job_error
  refused_down resp w h = elim (Bool-cases (says c deploying resp w)) [
    | inl told ↦ (λ a. told, λ b. ground (arith, h, told))
    | inr silent ↦
        (λ a. absurd (ground (arith, h, silent, a)), λ b. absurd (ground (arith, silent, b)))
  ]

  -- Where Nomad answers a request to scale with 400, scaling up counts as done exactly when the body
  -- says that an active deployment blocks the scaling, in whatever case, for the wake goes on to wait
  -- for a healthy endpoint; and exactly then scaling down reports the deployment, for the controller to
  -- try later.
  pub deployment-asymmetric :
      (group : String) (n : ℕ) (w u d : W) (up down : Response W)
      → c.send (post_count c job group n "nscale: scaling up on demand") w ≡ (done up, u)
      → c.send (post_count c job group 0 "nscale: scaling to zero after idle") w ≡ (done down, d)
      → up.status ≡ 400
      → down.status ≡ 400
      → (((scale_up c job group n w).0 ≡ ok tt) ↔ (says c deploying up u ≡ true))
        × (((scale_down c job group w).0 ≡ err (deployment_in_progress job "scale down"))
            ↔ (says c deploying down d ≡ true))
  unfolding scale_up scale_down
  deployment-asymmetric group n w u d up down sent_up sent_down hu hd =
      (rw sent_up (refused_up up u hu), rw sent_down (refused_down down d hd))

find-true :
    (p : Allocation → Bool) (xs : List Allocation) (a : Allocation)
    → find p xs ≡ some a
    → p a ≡ true
find-true p [] a h = absurd (ground arith)
find-true p (x ∷ xs) a h = ground (arith, find-true p xs a)

module _ {W : Type 0} (c : NomadClient W) (job : JobId) where
  endpoint_of :
      (w : W) (ep : Endpoint) (r : Result (List Allocation))
      → (get_allocations c job w).0 ≡ r
      → (get_healthy_endpoint c job w).0 ≡ ok (some ep)
      → (allocs : List Allocation) × (a : Allocation) × (r ≡ ok allocs)
        × (find is_running allocs ≡ some a)
        × (extract_endpoint a ≡ some ep)
  unfolding get_healthy_endpoint
  endpoint_of w ep (err e) k h = absurd (ground arith)
  endpoint_of w ep (ok allocs) k h = elim (Option-cases (find is_running allocs)) [
    | inl n ↦ absurd (ground arith)
    | inr (a, f) ↦ (allocs, a, refl, f, ground arith)
  ]

  -- An endpoint is healthy only if Nomad lists an allocation of the job whose client status is running
  -- and which is to run, and the endpoint is that allocation's.
  pub healthy_endpoint-running :
      (w : W) (ep : Endpoint)
      → (get_healthy_endpoint c job w).0 ≡ ok (some ep)
      → (allocs : List Allocation) × (a : Allocation) × ((get_allocations c job w).0 ≡ ok allocs)
        × (find is_running allocs ≡ some a)
        × ((a.client_status == "running") ≡ true)
        × ((a.desired_status == "run") ≡ true)
        × (extract_endpoint a ≡ some ep)
  unfolding is_running
  healthy_endpoint-running w ep h =
      let (allocs, a, k, f, x) = endpoint_of w ep _ refl h in
      let run : is_running a ≡ true = find-true is_running allocs a f in
      (allocs, a, k, f, ground arith, ground arith, x)
