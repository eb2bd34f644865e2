-- ===== src/Etcd/Tests.antt =====
-- client.rs of nscale-etcd over an etcd in memory that holds one registration's keys.
use nomad_scale_to_zero.Prelude.{String, ◌⊎◌, ◌≡◌, refl, none, some, [], ◌∷◌}
use nomad_scale_to_zero.Core.Samples.{web}
use nomad_scale_to_zero.Store.Redis.{lookup}
use nomad_scale_to_zero.Store.Memory.{web_codec, web_codec_laws}
use nomad_scale_to_zero.Etcd.{
  EtcdClient, job_key, service_key, store_registration, remove_registration, get_by_job_id,
  get_by_service_name,
}
use nomad_scale_to_zero.Etcd.Memory.{Memory, etcd, etcd_laws}
use nomad_scale_to_zero.Etcd.Laws.{get_by_name-store}
use nomad_scale_to_zero.Etcd.Removal.{Other, remove_registration-removes}

abbrev client : EtcdClient Memory
client = record { client = etcd; codec = web_codec; key_prefix = "/nscale" }

web_stored : (some web ≡ some web) × (some web ≡ some web)
unfolding store_registration get_by_job_id get_by_service_name etcd lookup
web_stored =
    get_by_name-store client etcd_laws web_codec_laws web [] (some web) (some web) refl refl refl

abbrev filled : Memory
filled =
    ("/nscale/jobs/web", "{web}")
    ∷ ("/nscale/services/web-svc", "{web}")
    ∷ ("/nscale/services/api-svc", "{api}")
    ∷ []

remove_registration-removes_example :
    (etcd_laws.value (job_key client "web") (remove_registration client "web" filled).1 ≡ none)
    × ((etcd_laws.value (service_key client "api-svc") (remove_registration client "web" filled).1
          ≡ none)
        ⊎ ((v : String) × (etcd_laws.value
                (service_key client "api-svc")
                (remove_registration client "web" filled).1
              ≡ some v)
            × Other client etcd_laws "web" v))
unfolding remove_registration etcd etcd_laws lookup
remove_registration-removes_example =
    remove_registration-removes client etcd_laws "web" filled "api-svc" refl
