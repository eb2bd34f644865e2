-- ===== src/Startup.antt =====
-- src/main.rs: the connection to Redis, which is tried again and again, and the registry that the
-- program starts with. The clients' connections are not part of the program. An exit of the process is
-- a result.
pub mod Attempts
pub mod Wiring
pub mod Shutdown
pub mod Heartbeats
pub mod Tests
use nomad_scale_to_zero.Prelude.{
  ℕ, zero, suc, ◌+◌, String, Bool, true, false, Option, none, some, List, [], ◌∷◌, leb, map, not,
  if◌then◌else◌,
}
use nomad_scale_to_zero.Prelude.Text.{is_empty, split_from, trim_start, trim_right}
use nomad_scale_to_zero.Core.Config.{Config}
use nomad_scale_to_zero.Core.Effect.{Act, Call, Reply, done, refused, ignore}
use nomad_scale_to_zero.Core.Traits.{DurableRegistry}
use nomad_scale_to_zero.Store.Redis.{RedisHash, Codec}
use nomad_scale_to_zero.Store.Registry.{JobRegistry, sync_from_durable}

-- `std::process::exit(1)`, or the value with which the start goes on.
pub data Started (A : Type 0) : Type 0 where
  going : A → Started A
  exited : Started A

abbrev pub max_retries : ℕ
max_retries = 30

module _ {W A : Type 0} (connect : Call W A) (sleep_second : W → W) where
  abbrev pub after_attempt :
      ℕ → Reply A × W → (ℕ → W → Option (Started A) × W) → Option (Started A) × W
  after_attempt attempt (done store, w) k = (some (going store), w)
  after_attempt attempt (refused m, w) k =
      if leb max_retries attempt then (some exited, w) else k attempt (sleep_second w)

  -- The loop, from the attempts that were made; `none` where the fuel runs out.
  pub connect_redis : ℕ → ℕ → W → Option (Started A) × W
  connect_redis zero attempt w = (none, w)
  connect_redis (suc fuel) attempt w = after_attempt (suc attempt) (connect w) (connect_redis fuel)

-- `split(',').map(str::trim).filter(|endpoint| !endpoint.is_empty())`
pub filled : List String → List String
unfolding trim_start trim_right
filled [] = []
filled (part ∷ rest) =
    let trimmed = trim_right (trim_start part) in
    let more = filled rest in if is_empty trimmed then more else trimmed ∷ more

pub etcd_endpoints : String → List String
unfolding filled split_from
etcd_endpoints text = filled (split_from "," "" text)

module _ {W : Type 0} (client : RedisHash W) (codec : Codec)
    (connect_etcd : List String → String → Call W (DurableRegistry W)) where
  -- The cache is hydrated; a failure is logged only.
  pub with_etcd : Reply (DurableRegistry W) → W → Started (JobRegistry W) × W
  with_etcd (refused m) w = (exited, w)
  with_etcd (done durable) w =
      let registry : JobRegistry W = record {
        client = client;
        codec = codec;
        durable = some durable;
      } in
      (going registry, ignore (sync_from_durable registry) w)

  pub connected : List String → String → W → Started (JobRegistry W) × W
  unfolding with_etcd
  connected [] key_prefix w = (exited, w)
  connected (endpoint ∷ rest) key_prefix w =
      let etcd = connect_etcd (endpoint ∷ rest) key_prefix w in with_etcd etcd.0 etcd.1

  pub open_registry : Config → W → Started (JobRegistry W) × W
  unfolding connected etcd_endpoints
  open_registry config w =
      if config.registry.durable_enabled
      then connected (etcd_endpoints config.registry.etcd_endpoints) config.registry.etcd_key_prefix
          w
      else (going (record { client = client; codec = codec; durable = none }), w)
