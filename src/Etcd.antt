-- ===== src/Etcd.antt =====
-- crates/nscale-etcd/src/client.rs: the durable registry in etcd. The etcd client and the codec are
-- not part of the program; the codec is the registry's (Store/Redis), with its text as the bytes. A
-- client's answer to a read is its keys with their values.
pub mod Laws
pub mod Removal
pub mod Memory
pub mod Tests
use nomad_scale_to_zero.Prelude.{
  String, Bool, true, false, Option, none, some, List, [], ◌∷◌, ◌++◌, map, ◌==◌, if◌then◌else◌,
}
use nomad_scale_to_zero.Prelude.Text.{
  append, is_empty, starts_with, trim_start, trim_right, trim_end,
}
use nomad_scale_to_zero.Core.Job.{JobId, ServiceName, JobRegistration}
use nomad_scale_to_zero.Core.Error.{NscaleError, store, Result, ok, err, and_then}
use nomad_scale_to_zero.Core.Effect.{Exec, Call, pure, wrap, from, map_err, ◌>>=◌, ◌>>◌}
use nomad_scale_to_zero.Core.Traits.{DurableRegistry, RegistrationEvent}
use nomad_scale_to_zero.Store.Redis.{Codec}

pub data TxnOp : Type 0 where
  put : String → String → TxnOp
  delete : String → TxnOp

abbrev pub KeyValues : Type 0
KeyValues = List (String × String)

-- `get_prefix` is a `get` with the option `with_prefix`.
pub record EtcdKv (W : Type 0) : Type 0 where
  pub txn : List TxnOp → Call W (Unit {0})
  pub get : String → Call W KeyValues
  pub get_prefix : String → Call W KeyValues

pub record EtcdClient (W : Type 0) : Type 0 where
  pub client : EtcdKv W
  pub codec : Codec
  pub key_prefix : String

pub normalize_prefix : String → String
unfolding trim_start trim_right trim_end
normalize_prefix prefix =
    let trimmed = trim_end "/" (trim_right (trim_start prefix)) in
    if is_empty trimmed
    then "/nscale/registrations"
    else if starts_with "/" trimmed
    then trimmed
    else append "/" trimmed

-- `new`, once the client has connected.
pub new : {W : Type 0} → EtcdKv W → Codec → String → EtcdClient W
unfolding normalize_prefix
new client codec key_prefix = record {
  client = client;
  codec = codec;
  key_prefix = normalize_prefix key_prefix;
}

module _ {W : Type 0} (c : EtcdClient W) where
  abbrev pub jobs_prefix : String
  jobs_prefix = append c.key_prefix "/jobs/"

  abbrev pub services_prefix : String
  services_prefix = append c.key_prefix "/services/"

  abbrev pub job_key : JobId → String
  job_key job = append jobs_prefix job

  abbrev pub service_key : ServiceName → String
  service_key service = append services_prefix service

  abbrev pub encode_registration : JobRegistration → Result String
  encode_registration reg = map_err store (c.codec.encode reg)

  abbrev pub decode_registration : String → Result JobRegistration
  decode_registration bytes = map_err store (c.codec.decode bytes)

  abbrev pub apply_txn : List TxnOp → Exec W (Unit {0})
  apply_txn operations = wrap store (c.client.txn operations)

  -- `kvs().first().map(decode).transpose()`
  unfoldable pub first : KeyValues → Result (Option JobRegistration)
  first [] = ok none
  first ((k, v) ∷ rest) = and_then (decode_registration v) λ reg. ok (some reg)

  pub get_by_key : String → Exec W (Option JobRegistration)
  unfolding first
  get_by_key key = do kvs ← wrap store (c.client.get key); from (first kvs)

  pub decode_all : KeyValues → Result (List JobRegistration)
  decode_all [] = ok []
  decode_all ((k, v) ∷ rest) =
      and_then (decode_registration v) λ reg. and_then (decode_all rest) λ regs. ok (reg ∷ regs)

  pub list_by_prefix : String → Exec W (List JobRegistration)
  unfolding decode_all
  list_by_prefix prefix = do kvs ← wrap store (c.client.get_prefix prefix); from (decode_all kvs)

  -- The loop of `service_keys_for_job`.
  pub keys_of_job : JobId → KeyValues → Result (List String)
  keys_of_job job [] = ok []
  keys_of_job job ((k, v) ∷ rest) = and_then (decode_registration v) λ reg.
      and_then (keys_of_job job rest) λ keys. ok (if reg.job_id == job then k ∷ keys else keys)

  pub service_keys_for_job : JobId → Exec W (List String)
  unfolding keys_of_job
  service_keys_for_job job = do
    kvs ← wrap store (c.client.get_prefix services_prefix)
    from (keys_of_job job kvs)

  unfoldable pub store_registration : JobRegistration → Exec W (Unit {0})
  store_registration reg = do
    encoded ← from (encode_registration reg)
    apply_txn (put (job_key reg.job_id) encoded ∷ put (service_key reg.service_name) encoded ∷ [])

  -- The operations of a removal: the service keys, and then the job's.
  pub deletions : JobId → List String → List TxnOp
  deletions job keys = map delete keys ++ delete (job_key job) ∷ []

  pub remove_registration : JobId → Exec W (Unit {0})
  unfolding service_keys_for_job deletions
  remove_registration job = do keys ← service_keys_for_job job; apply_txn (deletions job keys)

  unfoldable pub get_by_job_id : JobId → Exec W (Option JobRegistration)
  unfolding get_by_key
  get_by_job_id job = get_by_key (job_key job)

  pub get_by_service_name : ServiceName → Exec W (Option JobRegistration)
  unfolding get_by_key
  get_by_service_name service = get_by_key (service_key service)

  pub list_all : Exec W (List JobRegistration)
  unfolding list_by_prefix
  list_all = do
    service_regs ← list_by_prefix services_prefix
    elim service_regs [ [] ↦ list_by_prefix jobs_prefix | r ∷ rs ↦ pure (r ∷ rs) ]

  pub watch_registrations : Exec W (List RegistrationEvent)
  watch_registrations = pure []

  -- The client as its callers see it.
  abbrev pub service : DurableRegistry W
  service = record {
    store_registration = store_registration;
    remove_registration = remove_registration;
    get_by_job_id = get_by_job_id;
    get_by_service_name = get_by_service_name;
    list_all = list_all;
    watch_registrations = watch_registrations;
  }
