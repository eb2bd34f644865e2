-- ===== src/Admin/Submit/Created.antt =====
-- src/main.rs: what a submission that is answered with 201 means.
use nomad_scale_to_zero.Prelude.{List, [], ◌∷◌, ◌++◌, ◌≡◌, ◌≢◌, refl, arith, subst, sym}
use nomad_scale_to_zero.Prelude.Json.{Value}
use nomad_scale_to_zero.Core.Job.{JobId, JobRegistration}
use nomad_scale_to_zero.Core.Error.{Result, ok, err}
use nomad_scale_to_zero.Nomad.Models.{JobSubmitResponse}
use nomad_scale_to_zero.Nomad.JobMutator.{inject_nscale_tags}
use nomad_scale_to_zero.Admin.{AdminState}
use nomad_scale_to_zero.Admin.Submit.{
  SubmitJobRequest, RegistrationFailure, SubmitJobResponse, submitted, Seeding, reject,
  submit_status, registered, register_services, accepted, injected, parsed, admin_submit_job,
}

module _ {W : Type 0} (state : AdminState W) where
  -- The registry takes the registrations one after the other.
  abbrev pub RegistersAll : List JobRegistration → W → Type 0
  RegistersAll [] w = Unit
  RegistersAll (r ∷ rest) w =
      ((state.registry.register r w).0 ≡ ok tt) × RegistersAll rest (state.registry.register r w).1

  append-ne_nil : (fs gs : List RegistrationFailure) (f : RegistrationFailure) → fs ++ (f ∷ gs) ≢ []
  append-ne_nil [] gs f h = absurd (cc)
  append-ne_nil (x ∷ fs) gs f h = absurd (cc)

  registered_ok :
      (r : JobRegistration) (x : Result (Unit {0})) (s : Seeding)
      → (registered state r x s).registration_failures ≡ []
      → (x ≡ ok tt) × (s.registration_failures ≡ [])
  unfolding registered
  registered_ok r (ok tt) s h = (refl, h)
  registered_ok r (err e) s h = absurd (append-ne_nil s.registration_failures [] _ h)

  all_registered :
      (rs : List JobRegistration) (s : Seeding) (w : W)
      → (register_services state rs s w).0.registration_failures ≡ []
      → RegistersAll rs w × (s.registration_failures ≡ [])
  unfolding register_services
  all_registered [] s w h = (tt, h)
  all_registered (r ∷ rs) s w h =
      let outcome = state.registry.register r w in
      let later = all_registered rs (registered state r outcome.0 s) outcome.1 h in
      let now = registered_ok r outcome.0 s later.1 in ((now.0, later.0), now.1)

  -- The states in which the job is submitted and in which its services are registered.
  abbrev pub parsed_in : SubmitJobRequest → W → W
  parsed_in request w = (state.parse_job request.hcl request.variables w).1

  abbrev pub submitted_in : Value → SubmitJobRequest → W → W
  submitted_in job request w = (state.submit_job job (parsed_in request w)).1

  pub record Submission (request : SubmitJobRequest) (w : W) (response : SubmitJobResponse)
      : Type 0 where
    pub job : Value
    pub parse : (state.parse_job request.hcl request.variables w).0 ≡ ok job
    pub tagged : Value
    pub inject :
        inject_nscale_tags job state.file_provider_service ≡ ok (tagged, response.managed_services)
    pub first : JobRegistration
    pub rest : List JobRegistration
    pub services : response.managed_services ≡ first ∷ rest
    pub job_id : response.job_id ≡ first.job_id
    pub answer : JobSubmitResponse
    pub submit : (state.submit_job tagged (parsed_in request w)).0 ≡ ok answer
    pub registers : RegistersAll response.managed_services (submitted_in tagged request w)

  status_created : (fs : List RegistrationFailure) → submit_status fs ≡ 201 → fs ≡ []
  unfolding submit_status
  status_created [] h = refl
  status_created (f ∷ fs) h = absurd (omega arith)

  abbrev Accepted :
      JobId → List JobRegistration → Result JobSubmitResponse → W → SubmitJobResponse → Type 0
  Accepted job services r v response =
      (answer : JobSubmitResponse) × (r ≡ ok answer)
      × (response.managed_services ≡ services)
      × (response.job_id ≡ job)
      × RegistersAll services v

  accepted_created :
      (job : JobId) (services : List JobRegistration) (r : Result JobSubmitResponse) (v : W)
      (response : SubmitJobResponse)
      → (accepted state job services r v).0 ≡ submitted 201 response
      → Accepted job services r v response
  unfolding accepted reject
  accepted_created job services (err e) v response h = absurd (cc)
  accepted_created job services (ok answer) v response h =
      let s : Seeding = record { seeded_job_ids = []; registration_failures = [] } in
      let created =
        status_created (register_services state services s v).0.registration_failures
          (ground arith) in
      (answer, refl, ground arith, ground arith, (all_registered services s v created).0)

  -- A job that is submitted is parsed first and tagged.
  injected_created :
      (r : Result (Value × List JobRegistration)) (v : W) (response : SubmitJobResponse)
      → (injected state r v).0 ≡ submitted 201 response
      → (tagged : Value) × (first : JobRegistration) × (rest : List JobRegistration) × (r
          ≡ ok (tagged, first ∷ rest))
        × Accepted first.job_id
            (first ∷ rest)
            (state.submit_job tagged v).0
            (state.submit_job tagged v).1
            response
  unfolding injected reject
  injected_created (err e) v response h = absurd (cc)
  injected_created (ok (tagged, [])) v response h = absurd (cc)
  injected_created (ok (tagged, first ∷ rest)) v response h = (
    tagged,
    first,
    rest,
    refl,
    accepted_created first.job_id (first ∷ rest) (state.submit_job tagged v).0
        (state.submit_job tagged v).1 response h,
  )

  parsed_created :
      (request : SubmitJobRequest) (w : W) (response : SubmitJobResponse) (r : Result Value)
      → (state.parse_job request.hcl request.variables w).0 ≡ r
      → (parsed state r (parsed_in request w)).0 ≡ submitted 201 response
      → Submission request w response
  unfolding parsed reject
  parsed_created request w response (err e) p h = absurd (cc)
  parsed_created request w response (ok job) p h =
      let made =
        injected_created (inject_nscale_tags job state.file_provider_service) (parsed_in request w)
          response h in
      let (tagged, first, rest, inject, (answer, submit, services, job_id, registers)) = made in
      record {
        job = job;
        parse = p;
        tagged = tagged;
        inject =
            subst
              (λ (l : List JobRegistration).
                inject_nscale_tags job state.file_provider_service ≡ ok (tagged, l))
              (sym services) inject;
        first = first;
        rest = rest;
        services = services;
        job_id = job_id;
        answer = answer;
        submit = submit;
        registers =
            subst (λ (l : List JobRegistration). RegistersAll l (submitted_in tagged request w))
              (sym services) registers;
      }

  -- A submission that is answered with 201: Nomad has parsed the job, the tags could be injected into
  -- it and found the services of the response, of which there is one at least and the first gives the
  -- response's job id, Nomad has accepted the tagged job, and afterwards the registry has taken the
  -- registrations of these services, every one of them.
  pub created_registers_all :
      (request : SubmitJobRequest) (w : W) (response : SubmitJobResponse)
      → (admin_submit_job state request w).0 ≡ submitted 201 response
      → Submission request w response
  unfolding admin_submit_job
  created_registers_all request w response h =
      parsed_created request w response (state.parse_job request.hcl request.variables w).0 refl h
