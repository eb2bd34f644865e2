-- ===== src/Core/Config.antt =====
-- crates/nscale-core/src/config.rs: the configuration and its defaults. A socket address is its text.
-- The library that merges the defaults with a file and the environment is not part of the program.
use nomad_scale_to_zero.Prelude.{ℕ, ◌*◌, String, Bool, true, false, Option, none}

pub record NomadConfig : Type 0 where
  pub addr : String
  pub token : Option String
  pub concurrency : ℕ

pub record ConsulConfig : Type 0 where
  pub addr : String
  pub token : Option String

pub record RedisConfig : Type 0 where
  pub url : String

pub record RegistryConfig : Type 0 where
  pub durable_enabled : Bool
  pub etcd_endpoints : String
  pub etcd_key_prefix : String
  pub etcd_watch_backoff_secs : ℕ

pub record AutoDeregisterConfig : Type 0 where
  pub enabled : Bool
  pub not_found_threshold : ℕ

pub record ScalingConfig : Type 0 where
  pub idle_timeout_secs : ℕ
  pub wake_timeout_secs : ℕ
  pub scale_down_interval_secs : ℕ
  pub min_scale_down_age_secs : ℕ
  pub auto_deregister : AutoDeregisterConfig

pub record TraefikConfig : Type 0 where
  pub metrics_url : String
  pub provider : String

pub record ProxyConfig : Type 0 where
  pub request_timeout_secs : ℕ
  pub request_buffer_size : ℕ

pub record RoutingConfig : Type 0 where
  pub file_provider_service : String

pub record Config : Type 0 where
  pub listen_addr : String
  pub admin_addr : String
  pub nomad : NomadConfig
  pub consul : ConsulConfig
  pub redis : RedisConfig
  pub scaling : ScalingConfig
  pub proxy : ProxyConfig
  pub registry : RegistryConfig
  pub routing : RoutingConfig
  pub traefik : Option TraefikConfig

-- `Duration::from_secs`, in milliseconds.
abbrev from_secs : ℕ → ℕ
from_secs n = n * 1000

unfoldable pub idle_timeout : ScalingConfig → ℕ
idle_timeout c = from_secs c.idle_timeout_secs

pub wake_timeout : ScalingConfig → ℕ
wake_timeout c = from_secs c.wake_timeout_secs

pub scale_down_interval : ScalingConfig → ℕ
scale_down_interval c = from_secs c.scale_down_interval_secs

pub min_scale_down_age : ScalingConfig → ℕ
min_scale_down_age c = from_secs c.min_scale_down_age_secs

pub request_timeout : ProxyConfig → ℕ
request_timeout c = from_secs c.request_timeout_secs

abbrev pub default_nomad_concurrency : ℕ
default_nomad_concurrency = 50

abbrev pub default_idle_timeout : ℕ
default_idle_timeout = 300

abbrev pub default_wake_timeout : ℕ
default_wake_timeout = 60

abbrev pub default_scale_down_interval : ℕ
default_scale_down_interval = 30

abbrev pub default_min_scale_down_age : ℕ
default_min_scale_down_age = 120

abbrev pub default_auto_deregister_enabled : Bool
default_auto_deregister_enabled = true

abbrev pub default_auto_deregister_not_found_threshold : ℕ
default_auto_deregister_not_found_threshold = 5

abbrev pub default_request_timeout : ℕ
default_request_timeout = 30

abbrev pub default_request_buffer_size : ℕ
default_request_buffer_size = 1000

abbrev pub default_etcd_endpoints : String
default_etcd_endpoints = "http://localhost:2379"

abbrev pub default_etcd_key_prefix : String
default_etcd_key_prefix = "/nscale/registrations"

abbrev pub default_etcd_watch_backoff : ℕ
default_etcd_watch_backoff = 5

abbrev pub default_file_provider_service : String
default_file_provider_service = "s2z-nscale@file"

abbrev pub default_traefik_provider : String
default_traefik_provider = "consulcatalog"

-- The `Default` instances.
abbrev pub default_auto_deregister : AutoDeregisterConfig
default_auto_deregister = record {
  enabled = default_auto_deregister_enabled;
  not_found_threshold = default_auto_deregister_not_found_threshold;
}

abbrev pub default_routing : RoutingConfig
default_routing = record { file_provider_service = default_file_provider_service }

abbrev pub default_registry : RegistryConfig
default_registry = record {
  durable_enabled = false;
  etcd_endpoints = default_etcd_endpoints;
  etcd_key_prefix = default_etcd_key_prefix;
  etcd_watch_backoff_secs = default_etcd_watch_backoff;
}

abbrev pub default_config : Config
default_config = record {
  listen_addr = "0.0.0.0:8080";
  admin_addr = "0.0.0.0:9090";
  nomad = record {
    addr = "http://localhost:4646";
    token = none;
    concurrency = default_nomad_concurrency;
  };
  consul = record { addr = "http://localhost:8500"; token = none };
  redis = record { url = "redis://localhost:6379" };
  scaling = record {
    idle_timeout_secs = default_idle_timeout;
    wake_timeout_secs = default_wake_timeout;
    scale_down_interval_secs = default_scale_down_interval;
    min_scale_down_age_secs = default_min_scale_down_age;
    auto_deregister = default_auto_deregister;
  };
  proxy = record {
    request_timeout_secs = default_request_timeout;
    request_buffer_size = default_request_buffer_size;
  };
  registry = default_registry;
  routing = record { file_provider_service = default_file_provider_service };
  traefik = none;
}
