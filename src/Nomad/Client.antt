-- ===== src/Nomad/Client.antt =====
-- crates/nscale-nomad/src/client.rs: the calls of Nomad's HTTP API. The HTTP client is not part of the
-- program, and neither are the decoding of a response's JSON and the Unicode tables of
-- `to_lowercase`.
pub mod Endpoints
pub mod Answers
pub mod Tests
use nomad_scale_to_zero.Prelude.{
  ℕ, String, Bool, true, false, Option, none, some, List, [], ◌∷◌, find, leb, ltb, nat_eq, ◌==◌,
  ◌&&◌, ◌||◌, unwrap_or, if◌then◌else◌,
}
use nomad_scale_to_zero.Prelude.Text.{append, show, is_empty, contains, contains_lowered, trim_end}
use nomad_scale_to_zero.Prelude.Json.{Value}
use nomad_scale_to_zero.Core.Job.{JobId, Endpoint}
use nomad_scale_to_zero.Core.Error.{
  NscaleError, nomad, http, job_not_found, deployment_in_progress, Result, ok, err, ok_or,
}
use nomad_scale_to_zero.Core.Effect.{
  Exec, Call, Reply, done, refused, pure, throw, wrap, from, ◌>>=◌,
}
use nomad_scale_to_zero.Core.Traits.{Orchestrator}
use nomad_scale_to_zero.Nomad.Models.{
  ParseJobRequest, JobSubmitResponse, JobStopResponse, ScaleRequest, Job, Port, NetworkResource,
  SharedResources, AllocatedResources, AllocResources, Allocation, is_running,
}
use nomad_scale_to_zero.Nomad.Client.Endpoints.{extract_endpoint}

-- A request to a URL, with its body.
pub data Outgoing : Type 0 where
  get delete : String → Outgoing
  post_parse : String → ParseJobRequest → Outgoing
  post_job : String → Value → Outgoing
  post_scale : String → ScaleRequest → Outgoing

-- `text()`, and `json()` at the types that are asked for; a scale response is its warnings.
pub record Response (W : Type 0) : Type 0 where
  pub status : ℕ
  pub reason : String
  pub text : Call W String
  pub json_value : Call W Value
  pub json_submit : Call W JobSubmitResponse
  pub json_stop : Call W JobStopResponse
  pub json_job : Call W Job
  pub json_allocations : Call W (List Allocation)
  pub json_scale : Call W String

pub record NomadClient (W : Type 0) : Type 0 where
  pub send : Outgoing → Call W (Response W)
  pub to_lowercase : String → String
  pub base_url : String

pub new :
    {W : Type 0} → (Outgoing → Call W (Response W)) → (String → String) → String → NomadClient W
unfolding trim_end
new send to_lowercase addr = record {
  send = send;
  to_lowercase = to_lowercase;
  base_url = trim_end "/" addr;
}

-- `"{} {} returned {}: {}"`; a status is printed with its reason.
abbrev pub returned : String → String → ℕ → String → String → NscaleError
returned method path status reason body = nomad (
    append method (
      append " " (
        append path (
          append " returned "
            (append (show status) (append " " (append reason (append ": " body))))))))

pub classify_job_error : ℕ → String → String → String → String → JobId → NscaleError
unfolding contains_lowered
classify_job_error status reason body method path job =
    if nat_eq status 404 || contains_lowered "job not found" body
    then job_not_found job
    else returned method path status reason body

-- `status().is_success()`
abbrev pub is_success : ℕ → Bool
is_success status = leb 200 status && ltb status 300

module _ {W : Type 0} (c : NomadClient W) where
  abbrev pub url : String → String
  url path = append c.base_url path

  -- `….send().await?`
  abbrev pub request : Outgoing → Exec W (Response W)
  request out = wrap http (c.send out)

  -- `resp.text().await.unwrap_or_default()`
  abbrev pub body_of : Response W → W → String × W
  body_of resp w = (elim (resp.text w).0 [ done t ↦ t | refused _ ↦ "" ], (resp.text w).1)

  pub ensure_success : Response W → String → String → Exec W (Response W)
  ensure_success resp method path w = if is_success resp.status then (ok resp, w) else (
    err (returned method path resp.status resp.reason (body_of resp w).0),
    (body_of resp w).1,
  )

  pub ensure_job_success : Response W → String → String → JobId → Exec W (Response W)
  unfolding classify_job_error
  ensure_job_success resp method path job w = if is_success resp.status then (ok resp, w) else (
    err (classify_job_error resp.status resp.reason (body_of resp w).0 method path job),
    (body_of resp w).1,
  )

  pub parse_job : String → Option String → Exec W Value
  unfolding ensure_success
  parse_job hcl variables = do
    resp ← request (
        post_parse (url "/v1/jobs/parse")
          (record { job_hcl = hcl; canonicalize = true; variables = variables }))
    good ← ensure_success resp "POST" "/v1/jobs/parse"
    wrap http good.json_value

  pub submit_job : Value → Exec W JobSubmitResponse
  unfolding ensure_success
  submit_job job = do
    resp ← request (post_job (url "/v1/jobs") job)
    good ← ensure_success resp "POST" "/v1/jobs"
    wrap http good.json_submit

  abbrev pub job_path : JobId → String
  job_path job = append "/v1/job/" job

  pub read_job : JobId → Response W → Exec W Job
  unfolding ensure_job_success
  read_job job resp = do
    good ← ensure_job_success resp "GET" (job_path job) job
    wrap http good.json_job

  pub get_job : JobId → Exec W Job
  unfolding read_job
  get_job job = request (get (url (job_path job))) >>= read_job job

  abbrev pub allocations_path : JobId → String
  allocations_path job = append "/v1/job/" (append job "/allocations")

  pub read_allocations : JobId → Response W → Exec W (List Allocation)
  unfolding ensure_job_success
  read_allocations job resp = do
    good ← ensure_job_success resp "GET" (allocations_path job) job
    wrap http good.json_allocations

  pub get_allocations : JobId → Exec W (List Allocation)
  unfolding read_allocations
  get_allocations job = request (get (url (allocations_path job))) >>= read_allocations job

  abbrev pub purge_path : JobId → String
  purge_path job = append "/v1/job/" (append job "?purge=true")

  pub read_stop : JobId → Response W → Exec W JobStopResponse
  unfolding ensure_job_success
  read_stop job resp = do
    good ← ensure_job_success resp "DELETE" (purge_path job) job
    wrap http good.json_stop

  pub stop_and_purge_job : JobId → Exec W JobStopResponse
  unfolding read_stop
  stop_and_purge_job job = request (delete (url (purge_path job))) >>= read_stop job

  abbrev pub scale_path : JobId → String
  scale_path job = append "/v1/job/" (append job "/scale")

  abbrev pub post_count : JobId → String → ℕ → String → Outgoing
  post_count job group count message =
      post_scale (url (scale_path job))
        (record { count = some count; target = group; message = some message })

  -- A 400 whose body says that a deployment is in progress.
  pub is_blocked : ℕ → String → Bool
  unfolding contains
  is_blocked status body =
      nat_eq status 400 && contains "scaling blocked due to active deployment" (c.to_lowercase body)

  -- What follows an unsuccessful response; `blocked` is the answer to a blocked request.
  pub scale_refused : JobId → Result (Unit {0}) → Response W → Exec W (Unit {0})
  unfolding is_blocked classify_job_error
  scale_refused job blocked resp w = (
    if is_blocked resp.status (body_of resp w).0
        then blocked
        else err (
            classify_job_error resp.status resp.reason (body_of resp w).0 "POST" (scale_path job)
              job),
    (body_of resp w).1,
  )

  -- The rest of `scale_up` and of `scale_down`, once the response is there.
  pub scaled_up : JobId → Response W → Exec W (Unit {0})
  unfolding scale_refused
  scaled_up job resp =
      if is_success resp.status
      then (wrap http resp.json_scale >>= λ warnings. pure tt)
      else scale_refused job (ok tt) resp

  pub scale_up : JobId → String → ℕ → Exec W (Unit {0})
  unfolding scaled_up
  scale_up job group count =
      request (post_count job group count "nscale: scaling up on demand") >>= scaled_up job

  pub scaled_down : JobId → Response W → Exec W (Unit {0})
  unfolding scale_refused
  scaled_down job resp =
      if is_success resp.status
      then pure tt
      else scale_refused job (err (deployment_in_progress job "scale down")) resp

  pub scale_down : JobId → String → Exec W (Unit {0})
  unfolding scaled_down
  scale_down job group =
      request (post_count job group 0 "nscale: scaling to zero after idle") >>= scaled_down job

  pub get_job_count : JobId → String → Exec W ℕ
  unfolding get_job
  get_job_count job group = do
    found ← get_job job
    from (elim (find (λ g. g.name == group) found.task_groups) [
      | none ↦ err (
          nomad
            (append "task group '" (append group (append "' not found in job '" (append job "'")))))
      | some tg ↦ ok tg.count
    ])

  pub get_healthy_endpoint : JobId → Exec W (Option Endpoint)
  unfolding get_allocations extract_endpoint is_running
  get_healthy_endpoint job = do
    allocs ← get_allocations job
    elim (find is_running allocs) [ some alloc ↦ pure (extract_endpoint alloc) | none ↦ pure none ]

  -- The client as its callers see it.
  abbrev pub service : Orchestrator W
  service = record {
    scale_up = scale_up;
    scale_down = scale_down;
    get_job_count = get_job_count;
    get_healthy_endpoint = get_healthy_endpoint;
  }
