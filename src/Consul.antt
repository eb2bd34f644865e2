-- ===== src/Consul.antt =====
-- crates/nscale-consul: the registration of the fallback service, and the wait for a healthy instance
-- of a service. The HTTP client is not part of the program. An instant is a number of nanoseconds, and
-- reading the clock takes none.
pub mod Wait
pub mod Tests
use nomad_scale_to_zero.Prelude.{
  ℕ, zero, suc, ◌+◌, ◌-◌, ◌*◌, ◌/◌, String, Bool, true, false, not, Option, none, some, List, [],
  ◌∷◌, any, find, leb, ltb, ◌==◌, if◌then◌else◌,
}
use nomad_scale_to_zero.Prelude.Text.{append, show, trim_end, parse_u64}
use nomad_scale_to_zero.Core.Job.{ServiceName, Endpoint}
use nomad_scale_to_zero.Core.Error.{NscaleError, consul, http, wake_timeout, Result, ok, err}
use nomad_scale_to_zero.Core.Effect.{Exec, Call, Reply, done, refused, pure, wrap, ◌>>=◌}
use nomad_scale_to_zero.Nomad.Client.{is_success}

-- catalog.rs
pub record ServiceWeights : Type 0 where
  pub passing : ℕ
  pub warning : ℕ

pub record ServiceRegistration : Type 0 where
  pub id : String
  pub name : String
  pub address : String
  pub port : ℕ
  pub tags : List String
  pub weights : Option ServiceWeights

-- health.rs
pub record ServiceInfo : Type 0 where
  pub id : String
  pub address : String
  pub port : ℕ
  pub tags : List String

pub record HealthEntry : Type 0 where
  pub service : ServiceInfo

pub data Outgoing : Type 0 where
  get put : String → Outgoing
  put_registration : String → ServiceRegistration → Outgoing

-- `header` is a header's value where it is there and a text.
pub record Response (W : Type 0) : Type 0 where
  pub status : ℕ
  pub reason : String
  pub header : String → Option String
  pub text : Call W String
  pub json_entries : Call W (List HealthEntry)

-- The clock is a part of the state; a sleep is given its nanoseconds.
pub record ConsulClient (W : Type 0) : Type 0 where
  pub send : Outgoing → Call W (Response W)
  pub clock : W → ℕ
  pub sleep : ℕ → W → W
  pub base_url : String

pub new :
    {W : Type 0}
    → (Outgoing → Call W (Response W))
    → (W → ℕ)
    → (ℕ → W → W)
    → String
    → ConsulClient W
unfolding trim_end
new send clock sleep addr = record {
  send = send;
  clock = clock;
  sleep = sleep;
  base_url = trim_end "/" addr;
}

abbrev pub fallback_tag : String
fallback_tag = "nscale-fallback"

pub service_id : ServiceName → String
service_id service = append "nscale-fallback-" service

pub fallback_registration : ServiceName → Endpoint → ServiceRegistration
unfolding service_id
fallback_registration service proxy = record {
  id = service_id service;
  name = service;
  address = proxy.host;
  port = proxy.port;
  tags = fallback_tag ∷ [];
  weights = some (record { passing = 1; warning = 0 });
}

-- `tags.contains(…)`
pub is_fallback : HealthEntry → Bool
is_fallback e = any (λ (t : String). t == fallback_tag) (e.service).tags

pub endpoint_of : HealthEntry → Endpoint
endpoint_of e = record { host = (e.service).address; port = (e.service).port }

abbrev pub second : ℕ
second = 1000000000

abbrev pub min : ℕ → ℕ → ℕ
min a b = if ltb b a then b else a

-- `wait.as_secs().max(1)`, the wait of one request in seconds.
pub wait_secs : ℕ → ℕ → ℕ
wait_secs timeout remaining =
    let secs = min (min (10 * second) (timeout * second)) remaining / second in
    if leb 1 secs then secs else 1

pub health_path : ServiceName → ℕ → ℕ → String
health_path service consul_index secs = append "/v1/health/service/" (
    append service (
      append "?passing=true&index="
        (append (show consul_index) (append "&wait=" (append (show secs) "s")))))

-- One turn of the loop: another one follows, with the index to ask with, or the function returns.
pub data Turn (W : Type 0) : Type 0 where
  again : ℕ → W → Turn W
  finished : Result Endpoint → W → Turn W

module _ {W : Type 0} (c : ConsulClient W) where
  abbrev pub url : String → String
  url path = append c.base_url path

  abbrev pub text_or_default : Reply String → String
  text_or_default (done t) = t
  text_or_default (refused m) = ""

  abbrev pub returned : String → ℕ → String → String → NscaleError
  returned what status reason body = consul (
      append what (
        append " returned " (append (show status) (append " " (append reason (append ": " body))))))

  -- A request that must succeed, and the beginning of its error's text.
  pub check : String → Response W → Exec W (Unit {0})
  check what resp w = if is_success resp.status then (ok tt, w) else (
    err (returned what resp.status resp.reason (text_or_default (resp.text w).0)),
    (resp.text w).1,
  )

  pub register_fallback_service : ServiceName → Endpoint → Exec W (Unit {0})
  unfolding check fallback_registration
  register_fallback_service service proxy = do
    resp ← wrap http (
        c.send (
          put_registration (url "/v1/agent/service/register")
            (fallback_registration service proxy)))
    check "register fallback" resp

  pub deregister_fallback_service : ServiceName → Exec W (Unit {0})
  unfolding check service_id
  deregister_fallback_service service = do
    resp ←
        wrap http (c.send (put (url (append "/v1/agent/service/deregister/" (service_id service)))))
    check "deregister fallback" resp

  -- `X-Consul-Index`, where it is a number.
  pub next_index : ℕ → Response W → ℕ
  unfolding parse_u64
  next_index consul_index resp = elim (resp.header "X-Consul-Index") [
    | none ↦ consul_index
    | some s ↦ elim (parse_u64 s) [ none ↦ consul_index | some i ↦ i ]
  ]

  pub choose : ℕ → Option HealthEntry → W → Turn W
  unfolding endpoint_of
  choose consul_index none w = again consul_index w
  choose consul_index (some e) w = finished (ok (endpoint_of e)) w

  pub read_entries : ℕ → Reply (List HealthEntry) → W → Turn W
  unfolding choose is_fallback
  read_entries consul_index (refused m) w = finished (err (http m)) w
  read_entries consul_index (done entries) w =
      choose consul_index (find (λ (e : HealthEntry). not (is_fallback e)) entries) w

  pub read_health : ℕ → Response W → W → Turn W
  unfolding read_entries
  read_health consul_index resp w =
      if is_success resp.status
      then read_entries consul_index (resp.json_entries w).0 (resp.json_entries w).1
      else again consul_index (c.sleep (second / 2) (resp.text w).1)

  pub received : ℕ → Reply (Response W) → W → Turn W
  unfolding read_health next_index
  received consul_index (refused m) w = finished (err (http m)) w
  received consul_index (done resp) w = read_health (next_index consul_index resp) resp w

  pub turn : ServiceName → ℕ → ℕ → ℕ → W → Turn W
  unfolding received health_path wait_secs
  turn service timeout deadline consul_index w =
      if leb deadline (c.clock w)
      then finished (err (wake_timeout service timeout)) w
      else (let remaining = deadline - c.clock w in
          let path = health_path service consul_index (wait_secs timeout remaining) in
          let answer = c.send (get (url path)) w in received consul_index answer.0 answer.1)

  abbrev pub go_on : Turn W → (ℕ → W → Option (Result Endpoint) × W) → Option (Result Endpoint) × W
  go_on (again i w) k = k i w
  go_on (finished r w) k = (some r, w)

  -- The loop, on fuel: `none` where it runs out.
  pub turns : ℕ → ServiceName → ℕ → ℕ → ℕ → W → Option (Result Endpoint) × W
  unfolding turn
  turns zero service timeout deadline consul_index w = (none, w)
  turns (suc n) service timeout deadline consul_index w =
      go_on (turn service timeout deadline consul_index w) (turns n service timeout deadline)

  -- The timeout is in seconds, and the first index is 0.
  pub wait_for_healthy_service : ℕ → ServiceName → ℕ → W → Option (Result Endpoint) × W
  unfolding turns
  wait_for_healthy_service fuel service timeout w =
      turns fuel service timeout (c.clock w + timeout * second) 0 w
