-- ===== src/Etcd/Laws.antt =====
-- client.rs of nscale-etcd: what a store and a removal leave, over what etcd documents of its reads
-- and transactions, when they succeed.
use nomad_scale_to_zero.Prelude.{
  String, true, Option, none, some, List, [], ◌∷◌, ◌≡◌, refl, arith, ◌==◌, eq_iff, if◌then◌else◌,
}
use nomad_scale_to_zero.Prelude.Text.{starts_with}
use nomad_scale_to_zero.Core.Job.{JobRegistration}
use nomad_scale_to_zero.Core.Error.{ok}
use nomad_scale_to_zero.Core.Effect.{Reply, done, refused}
use nomad_scale_to_zero.Store.Redis.{CodecLaws, lookup}
use nomad_scale_to_zero.Etcd.{
  TxnOp, put, delete, KeyValues, EtcdKv, EtcdClient, job_key, service_key, apply_txn, first,
  get_by_key, store_registration, get_by_job_id, get_by_service_name,
}

-- What a transaction makes of the value at a key.
unfoldable pub applied : String → List TxnOp → Option String → Option String
applied k [] v = v
applied k (put j u ∷ ops) v = applied k ops (if j == k then some u else v)
applied k (delete j ∷ ops) v = applied k ops (if j == k then none else v)

pub record EtcdLaws {W : Type 0} (c : EtcdKv W) : Type 0 where
  pub value : String → W → Option String
  pub txn_value :
      (ops : List TxnOp) (w : W)
      → (c.txn ops w).0 ≡ done tt
      → (k : String) → value k (c.txn ops w).1 ≡ applied k ops (value k w)
  pub get_answer :
      (k : String) (w : W) (kvs : KeyValues)
      → (c.get k w).0 ≡ done kvs
      → kvs ≡ elim (value k w) [ none ↦ [] | some v ↦ (k, v) ∷ [] ]
  pub prefix_answer :
      (p : String) (w : W) (kvs : KeyValues)
      → (c.get_prefix p w).0 ≡ done kvs
      → (k : String) → starts_with p k ≡ true
      → lookup k kvs ≡ value k w
  pub prefix_value : (p : String) (w : W) (k : String) → value k (c.get_prefix p w).1 ≡ value k w

module _ {W : Type 0} (c : EtcdClient W) where
  pub txn_done :
      (ops : List TxnOp) (w : W) (y : Reply (Unit {0}))
      → (c.client.txn ops w).0 ≡ y
      → (apply_txn c ops w).0 ≡ ok tt
      → y ≡ done tt
  txn_done ops w (done tt) e h = refl
  txn_done ops w (refused m) e h = absurd (ground arith)

module _ {W : Type 0} (c : EtcdClient W) (laws : EtcdLaws c.client)
    (codec : CodecLaws c.codec) where
  open laws use {value}

  -- A read of a key at which a registration's text stands.
  read :
      (key : String) (reg : JobRegistration) (t : String) (w : W) (x : Reply KeyValues)
      (a : Option JobRegistration)
      → (c.client.get key w).0 ≡ x
      → value key w ≡ some t
      → c.codec.encode reg ≡ done t
      → (get_by_key c key w).0 ≡ ok a
      → a ≡ some reg
  unfolding get_by_key first
  read key reg t w (done kvs) a e v enc h =
      ground (arith, laws.get_answer key w kvs e, codec.decode-encode reg t enc)
  read key reg t w (refused m) a e v enc h = absurd (ground arith)

  pub stored :
      (reg : JobRegistration) (w : W) (x : Reply String)
      → c.codec.encode reg ≡ x
      → (store_registration c reg w).0 ≡ ok tt
      → (t : String) × (c.codec.encode reg ≡ done t)
        × (value (job_key c reg.job_id) (store_registration c reg w).1 ≡ some t)
        × (value (service_key c reg.service_name) (store_registration c reg w).1 ≡ some t)
  unfolding store_registration applied
  stored reg w (refused m) e h = absurd (ground arith)
  stored reg w (done t) e h =
      let j : String = job_key c reg.job_id in
      let s : String = service_key c reg.service_name in
      let ops : List TxnOp = put j t ∷ put s t ∷ [] in
      let ran : (apply_txn c ops w).0 ≡ ok tt = ground arith in
      let went : (c.client.txn ops w).0 ≡ done tt = txn_done c ops w _ refl ran in
      (
        t,
        e,
        ground (arith, laws.txn_value ops w went j, eq_iff j j),
        ground (arith, laws.txn_value ops w went s, eq_iff s s),
      )

  -- A lookup of a job whose registration stands in etcd.
  pub get_by_job_id-stored :
      (reg : JobRegistration) (t : String) (w : W) (a : Option JobRegistration)
      → value (job_key c reg.job_id) w ≡ some t
      → c.codec.encode reg ≡ done t
      → (get_by_job_id c reg.job_id w).0 ≡ ok a
      → a ≡ some reg
  unfolding get_by_job_id
  get_by_job_id-stored reg t w a v enc g = read (job_key c reg.job_id) reg t w _ a refl v enc g

  -- After a registration has been stored, a lookup by its job id or by its service name that succeeds
  -- answers with exactly that registration.
  pub get_by_name-store :
      (reg : JobRegistration) (w : W) (a b : Option JobRegistration)
      → (store_registration c reg w).0 ≡ ok tt
      → (get_by_job_id c reg.job_id (store_registration c reg w).1).0 ≡ ok a
      → (get_by_service_name c reg.service_name (store_registration c reg w).1).0 ≡ ok b
      → (a ≡ some reg) × (b ≡ some reg)
  unfolding get_by_job_id get_by_service_name
  get_by_name-store reg w a b h g k =
      let (t, enc, at_job, at_service) = stored reg w _ refl h in
      let v : W = (store_registration c reg w).1 in
      (
        read (job_key c reg.job_id) reg t v _ a refl at_job enc g,
        read (service_key c reg.service_name) reg t v _ b refl at_service enc k,
      )
