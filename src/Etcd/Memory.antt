-- ===== src/Etcd/Memory.antt =====
-- An etcd in memory: what the hypotheses on the etcd client say of a server that never fails.
use nomad_scale_to_zero.Prelude.{
  String, ◌≡◌, refl, true, Option, none, some, List, [], ◌∷◌, ◌==◌, arith, eq_iff, if◌then◌else◌,
}
use nomad_scale_to_zero.Prelude.Text.{starts_with}
use nomad_scale_to_zero.Core.Effect.{done}
use nomad_scale_to_zero.Store.Redis.{lookup}
use nomad_scale_to_zero.Etcd.{TxnOp, put, delete, KeyValues, EtcdKv}
use nomad_scale_to_zero.Etcd.Laws.{applied, EtcdLaws}

-- The pairs in store; the newest of a key counts.
abbrev pub Memory : Type 0
Memory = List (String × String)

abbrev pub without : String → Memory → Memory
without f [] = []
without f ((g, v) ∷ rest) = let more = without f rest in if g == f then more else (g, v) ∷ more

abbrev pub run : List TxnOp → Memory → Memory
run [] m = m
run (put k v ∷ ops) m = run ops ((k, v) ∷ m)
run (delete k ∷ ops) m = run ops (without k m)

abbrev pub under : String → Memory → KeyValues
under p [] = []
under p ((k, v) ∷ rest) = let more = under p rest in if starts_with p k then (k, v) ∷ more else more

abbrev pub one : String → Option String → KeyValues
one k none = []
one k (some v) = (k, v) ∷ []

unfoldable pub etcd : EtcdKv Memory
unfolding lookup
etcd = record {
  txn = λ ops m. (done tt, run ops m);
  get = λ k m. (done (one k (lookup k m)), m);
  get_prefix = λ p m. (done (under p m), m);
}

lookup-without :
    (f g : String) (m : Memory) → lookup g (without f m) ≡ (if f == g then none else lookup g m)
unfolding lookup
lookup-without f g [] = ground arith
lookup-without f g ((h, v) ∷ rest) =
    ground (arith, lookup-without f g rest, eq_iff h f, eq_iff h g, eq_iff f g)

pub lookup-run :
    (ops : List TxnOp) (m : Memory) (k : String) → lookup k (run ops m) ≡ applied k ops (lookup k m)
unfolding lookup applied
lookup-run [] m k = refl
lookup-run (put j v ∷ ops) m k = lookup-run ops ((j, v) ∷ m) k
lookup-run (delete j ∷ ops) m k = rw (← lookup-without j k m) (lookup-run ops (without j m) k)

pub lookup-under :
    (p : String) (m : Memory) (k : String)
    → starts_with p k ≡ true
    → lookup k (under p m) ≡ lookup k m
unfolding lookup
lookup-under p [] k h = refl
lookup-under p ((j, v) ∷ rest) k h = ground (arith, lookup-under p rest k h, eq_iff j k)

pub got :
    (k : String) (m : Memory) (kvs : KeyValues)
    → (etcd.get k m).0 ≡ done kvs
    → kvs ≡ elim (lookup k m) [ none ↦ [] | some v ↦ (k, v) ∷ [] ]
unfolding etcd lookup
got k m kvs h = ground arith

pub got_prefix :
    (p : String) (m : Memory) (kvs : KeyValues)
    → (etcd.get_prefix p m).0 ≡ done kvs
    → (k : String) → starts_with p k ≡ true
    → lookup k kvs ≡ lookup k m
unfolding etcd lookup
got_prefix p m kvs h k s = ground (arith, lookup-under p m k s)

unfoldable pub etcd_laws : EtcdLaws etcd
unfolding etcd lookup
etcd_laws = record {
  value = λ k m. lookup k m;
  txn_value = λ ops m h k. lookup-run ops m k;
  get_answer = λ k m kvs h. got k m kvs h;
  prefix_answer = λ p m kvs h k s. got_prefix p m kvs h k s;
  prefix_value = λ p m k. refl;
}
