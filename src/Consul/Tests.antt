-- ===== src/Consul/Tests.antt =====
-- crates/nscale-consul on concrete answers; the state is the clock.
use nomad_scale_to_zero.Prelude.{
  ℕ, suc, ◌+◌, ◌*◌, ◌≤◌, subst, some, [], ◌∷◌, ltb, if◌then◌else◌, ◌≡◌, refl, arith,
}
use nomad_scale_to_zero.Core.Error.{wake_timeout, ok, err}
use nomad_scale_to_zero.Core.Effect.{done}
use nomad_scale_to_zero.Consul.{
  HealthEntry, Response, ConsulClient, is_fallback, endpoint_of, second, wait_secs, turn, received,
  read_health, read_entries, choose, next_index, turns, wait_for_healthy_service,
}
use nomad_scale_to_zero.Consul.Wait.{Returns, wait_ends}

abbrev proxy_entry : HealthEntry
proxy_entry = record {
  service = record {
    id = "nscale-fallback-web";
    address = "10.0.0.1";
    port = 8080;
    tags = "nscale-fallback" ∷ [];
  };
}

abbrev real_entry : HealthEntry
real_entry = record {
  service = record { id = "web-1"; address = "10.0.0.10"; port = 3000; tags = "http" ∷ [] };
}

-- The instance is there from the clock's third tick on.
abbrev response : ℕ → Response ℕ
response status = record {
  status = status;
  reason = "";
  header = λ name. some "42";
  text = λ w. (done "", w);
  json_entries =
      λ w. (done (if ltb w 3 then proxy_entry ∷ [] else proxy_entry ∷ real_entry ∷ []), w);
}

-- A request takes a tick.
abbrev client : ℕ → ConsulClient ℕ
client status = record {
  send = λ out w. (done (response status), w + 1);
  clock = λ w. w;
  sleep = λ n w. w + n;
  base_url = "http://consul:8500";
}

healthy :
    turns (client 200) 3 "web" 5 5000000000 0 0
    ≡ (some (ok (record { host = "10.0.0.10"; port = 3000 })), 3)
unfolding turns turn received read_health read_entries choose next_index endpoint_of is_fallback
healthy = refl

unhealthy :
    turns (client 500) 3 "web" 1 1000000000 0 0 ≡ (some (err (wake_timeout "web" 1)), 1000000002)
unfolding turns turn received read_health next_index
unhealthy = refl

waits : (wait_secs 60 2500000000 ≡ 2) × (wait_secs 60 90000000000 ≡ 10) × (wait_secs 60 5 ≡ 1)
unfolding wait_secs
waits = (refl, refl, refl)

reads_on :
    (status : ℕ) (resp : Response ℕ)
    → done (response status) ≡ done resp
    → (v : ℕ) → (v ≤ (resp.text v).1) × (v ≤ (resp.json_entries v).1)
reads_on status resp h v =
    let same : response status ≡ resp = cc in
    subst (λ (r : Response ℕ). (v ≤ (r.text v).1) × (v ≤ (r.json_entries v).1)) same
      (omega arith, omega arith)

wait_ends_example :
    Returns
      (client 200)
      "web"
      5
      (7 + 5 * second)
      (wait_for_healthy_service (client 200) (suc (5 * second)) "web" 5 7)
wait_ends_example =
    wait_ends (client 200) "web" 5 (λ out w. omega arith) (λ out w resp h v. reads_on 200 resp h v)
      (λ n w. omega arith) 7
