-- ===== src/Proxy/Middleware.antt =====
-- crates/nscale-proxy/src/middleware.rs: the layer that records a request's activity. The inner service
-- and the reading of a header are not part of it. The task that it spawns after the response runs at
-- some later time, so `call` answers with the job for which it is spawned.
use nomad_scale_to_zero.Prelude.{String, Option, none, some}
use nomad_scale_to_zero.Core.Job.{JobId}
use nomad_scale_to_zero.Core.Effect.{Act, Reply, done, refused, ignore}
use nomad_scale_to_zero.Core.Traits.{ActivityStore}
use nomad_scale_to_zero.Proxy.Forward.{extract_job_id_from_host}

-- `host` is the request's Host header where it is there and a text.
pub record ActivityService (W : Type 0) (Req : Type 0) (Resp : Type 0) : Type 0 where
  pub host : Req → Option String
  pub inner : Req → Act W (Reply Resp)
  pub store : ActivityStore W

module _ {W Req Resp : Type 0} (s : ActivityService W Req Resp) where
  abbrev pub job_of_host : Option String → Option JobId
  job_of_host none = none
  job_of_host (some host) = extract_job_id_from_host host

  -- A failure to record is logged only.
  pub record_start : Option JobId → W → W
  record_start none w = w
  record_start (some job) w = ignore (s.store.record_activity job) w

  pub finished : Option JobId → Reply Resp → Reply Resp × Option JobId
  finished job (refused m) = (refused m, none)
  finished job (done response) = (done response, job)

  pub call : Req → Act W (Reply Resp × Option JobId)
  unfolding record_start finished
  call req w =
      let job = job_of_host (s.host req) in
      let answer = s.inner req (record_start job w) in (finished job answer.0, answer.1)

  -- The spawned task.
  pub record_end : JobId → W → W
  record_end job w = ignore (s.store.record_activity job) w
