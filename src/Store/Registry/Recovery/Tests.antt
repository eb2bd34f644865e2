-- ===== src/Store/Registry/Recovery/Tests.antt =====
-- registry.rs over a Redis and an etcd in memory; the state is both.
use nomad_scale_to_zero.Prelude.{◌≡◌, refl, some, []}
use nomad_scale_to_zero.Core.Samples.{web}
use nomad_scale_to_zero.Store.Redis.{RedisHash, HashLaws, lookup}
use nomad_scale_to_zero.Store.Memory.{memory_hash, memory_laws, web_codec, web_codec_laws}
use nomad_scale_to_zero.Store.Memory as RedisMemory
use nomad_scale_to_zero.Store.Registry.{
  register, get, get_durable, cache_registration, store_durably,
}
use nomad_scale_to_zero.Store.Registry.Recovery.{Apart, replica, register-survives}
use nomad_scale_to_zero.Etcd.{EtcdKv, EtcdClient, store_registration, get_by_job_id}
use nomad_scale_to_zero.Etcd.Memory.{etcd, etcd_laws}
use nomad_scale_to_zero.Etcd.Memory as EtcdMemory
use nomad_scale_to_zero.Etcd.Laws.{EtcdLaws}

abbrev Servers : Type 0
Servers = RedisMemory.Memory × EtcdMemory.Memory

abbrev hash : RedisHash Servers
hash = record {
  hset = λ k f v m. let x = memory_hash.hset k f v m.0 in (x.0, (x.1, m.1));
  hget = λ k f m. let x = memory_hash.hget k f m.0 in (x.0, (x.1, m.1));
  hdel = λ k f m. let x = memory_hash.hdel k f m.0 in (x.0, (x.1, m.1));
  hgetall = λ k m. let x = memory_hash.hgetall k m.0 in (x.0, (x.1, m.1));
}

hash_laws : HashLaws hash
hash_laws = record {
  value = λ k f m. memory_laws.value k f m.0;
  hset_value = λ k f v m h j g. memory_laws.hset_value k f v m.0 h j g;
  hget_answer = λ k f m a h. memory_laws.hget_answer k f m.0 a h;
  hget_value = λ k f m j g. memory_laws.hget_value k f m.0 j g;
  hdel_value = λ k f m h j g. memory_laws.hdel_value k f m.0 h j g;
  hgetall_answer = λ k m es h f. memory_laws.hgetall_answer k m.0 es h f;
  hgetall_value = λ k m j g. memory_laws.hgetall_value k m.0 j g;
}

abbrev kv : EtcdKv Servers
kv = record {
  txn = λ ops m. let x = etcd.txn ops m.1 in (x.0, (m.0, x.1));
  get = λ k m. let x = etcd.get k m.1 in (x.0, (m.0, x.1));
  get_prefix = λ p m. let x = etcd.get_prefix p m.1 in (x.0, (m.0, x.1));
}

kv_laws : EtcdLaws kv
kv_laws = record {
  value = λ k m. etcd_laws.value k m.1;
  txn_value = λ ops m h k. etcd_laws.txn_value ops m.1 h k;
  get_answer = λ k m kvs h. etcd_laws.get_answer k m.1 kvs h;
  prefix_answer = λ p m kvs h k s. etcd_laws.prefix_answer p m.1 kvs h k s;
  prefix_value = λ p m k. etcd_laws.prefix_value p m.1 k;
}

apart : Apart hash kv_laws.value
unfolding kv_laws etcd_laws
apart = record { hset_apart = λ j f v m k. refl; hget_apart = λ j f m k. refl }

abbrev client : EtcdClient Servers
client = record { client = kv; codec = web_codec; key_prefix = "/nscale" }

abbrev started : Servers
started = (λ key. [], [])

-- The state after a registration whose Redis is emptied.
abbrev emptied : Servers
emptied = (λ key. [], ((register (replica hash web_codec client) web started).1).1)

register-survives_example : some web ≡ some web
unfolding register store_durably get get_durable cache_registration store_registration get_by_job_id
    hash_laws kv_laws etcd_laws memory_laws etcd lookup
register-survives_example =
    register-survives hash web_codec client hash_laws kv_laws web_codec_laws apart web started
      emptied (some web) refl refl refl refl refl
