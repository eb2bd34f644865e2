-- ===== src/Store/Memory.antt =====
-- A Redis in memory: what the store's hypotheses on its client say of a server that never fails.
use nomad_scale_to_zero.Prelude.{
  ◌≡◌, refl, some, String, Bool, none, List, [], ◌∷◌, ◌&&◌, ◌==◌, ne_of_false, ap, arith, eq_iff,
  if◌then◌else◌,
}
use nomad_scale_to_zero.Core.Job.{JobRegistration}
use nomad_scale_to_zero.Core.Effect.{done, refused}
use nomad_scale_to_zero.Core.Samples.{web}
use nomad_scale_to_zero.Store.Redis.{RedisHash, Codec, CodecLaws, HashLaws, lookup}

-- The fields of each hash.
abbrev pub Memory : Type 0
Memory = String → List (String × String)

abbrev pub without : String → List (String × String) → List (String × String)
without f [] = []
without f ((g, v) ∷ rest) = let more = without f rest in if g == f then more else (g, v) ∷ more

abbrev pub at_key : String → List (String × String) → Memory → Memory
at_key k es m j = if k == j then es else m j

abbrev pub memory_hash : RedisHash Memory
unfolding lookup
memory_hash = record {
  hset = λ k f v m. (done tt, at_key k ((f, v) ∷ m k) m);
  hget = λ k f m. (done (lookup f (m k)), m);
  hdel = λ k f m. (done tt, at_key k (without f (m k)) m);
  hgetall = λ k m. (done (m k), m);
}

pub lookup-without :
    (f g : String) (es : List (String × String))
    → lookup g (without f es) ≡ (if f == g then none else lookup g es)
unfolding lookup
lookup-without f g [] = ground arith
lookup-without f g ((h, v) ∷ rest) =
    ground (arith, lookup-without f g rest, eq_iff h f, eq_iff h g, eq_iff f g)

module _ (k f : String) (m : Memory) where
  pub memory_set :
      (v j g : String)
      → lookup g (at_key k ((f, v) ∷ m k) m j)
        ≡ (if (k == j) && (f == g) then some v else lookup g (m j))
  unfolding lookup
  memory_set v j g = ground (arith, eq_iff k j)

  pub memory_unset :
      (j g : String)
      → lookup g (at_key k (without f (m k)) m j)
        ≡ (if (k == j) && (f == g) then none else lookup g (m j))
  memory_unset j g = ground (arith, eq_iff k j, lookup-without f g (m k))

pub done-eq : {A : Type 0} (a b : A) → done a ≡ done b → b ≡ a
done-eq a b h = ground arith

unfoldable pub memory_laws : HashLaws memory_hash
unfolding lookup
memory_laws = record {
  value = λ k f m. lookup f (m k);
  hset_value = λ k f v m h j g. memory_set k f m v j g;
  hget_answer = λ k f m a h. done-eq (lookup f (m k)) a h;
  hget_value = λ k f m j g. refl;
  hdel_value = λ k f m h j g. memory_unset k f m j g;
  hgetall_answer = λ k m es h f. ap (lookup f) (done-eq (m k) es h);
  hgetall_value = λ k m j g. refl;
}

abbrev pub api : JobRegistration
api = record { job_id = "api"; service_name = "api-svc"; nomad_group = "main" }

-- A codec for two registrations.
abbrev same_registration : JobRegistration → JobRegistration → Bool
same_registration a b =
    (a.job_id == b.job_id)
    && ((a.service_name == b.service_name) && (a.nomad_group == b.nomad_group))

abbrev pub web_codec : Codec
web_codec = record {
  encode = λ r.
      if same_registration r web
      then done "{web}"
      else if same_registration r api
      then done "{api}"
      else refused "unsupported";
  decode = λ t.
      if t == "{web}" then done web else if t == "{api}" then done api else refused "unsupported";
}

pub web_codec_laws : CodecLaws web_codec
web_codec_laws = record {
  decode-encode = λ r t h. ground (
    arith,
    ne_of_false "{web}" "{api}" refl,
    eq_iff t "{web}",
    eq_iff t "{api}",
    eq_iff r.job_id "api",
    eq_iff r.service_name "api-svc",
    eq_iff r.job_id "web",
    eq_iff r.service_name "web-svc",
    eq_iff r.nomad_group "main",
  );
}
