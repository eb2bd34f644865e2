-- ===== src/Store/Redis.antt =====
-- What the store uses of the Redis client and of `serde_json`, which are not part of the program, and
-- what it relies on: the documented behaviour of the hash commands, when they succeed, while no other
-- client writes the same hashes.
use nomad_scale_to_zero.Prelude.{
  String, ◌≡◌, ◌&&◌, ◌==◌, Option, none, some, List, [], ◌∷◌, if◌then◌else◌,
}
use nomad_scale_to_zero.Core.Effect.{Call, Reply, done}
use nomad_scale_to_zero.Core.Job.{JobRegistration}

pub record RedisHash (W : Type 0) : Type 0 where
  pub hset : String → String → String → Call W (Unit {0})
  pub hget : String → String → Call W (Option String)
  pub hdel : String → String → Call W (Unit {0})
  pub hgetall : String → Call W (List (String × String))

pub record Codec : Type 0 where
  pub encode : JobRegistration → Reply String
  pub decode : String → Reply JobRegistration

-- The value at a key of the list of a hash's fields.
unfoldable pub lookup : String → List (String × String) → Option String
lookup f [] = none
lookup f ((g, v) ∷ rest) = let more = lookup f rest in if g == f then some v else more

pub record CodecLaws (c : Codec) : Type 0 where
  pub decode-encode : (r : JobRegistration) (t : String) → c.encode r ≡ done t → c.decode t ≡ done r

pub record HashLaws {W : Type 0} (h : RedisHash W) : Type 0 where
  -- the value of a field of the hash at a key
  pub value : String → String → W → Option String
  pub hset_value :
      (k f v : String) (w : W)
      → (h.hset k f v w).0 ≡ done tt
      → (j g : String)
      → value j g (h.hset k f v w).1 ≡ (if (k == j) && (f == g) then some v else value j g w)
  pub hget_answer :
      (k f : String) (w : W) (a : Option String) → (h.hget k f w).0 ≡ done a → a ≡ value k f w
  pub hget_value : (k f : String) (w : W) (j g : String) → value j g (h.hget k f w).1 ≡ value j g w
  pub hdel_value :
      (k f : String) (w : W)
      → (h.hdel k f w).0 ≡ done tt
      → (j g : String)
      → value j g (h.hdel k f w).1 ≡ (if (k == j) && (f == g) then none else value j g w)
  pub hgetall_answer :
      (k : String) (w : W) (es : List (String × String))
      → (h.hgetall k w).0 ≡ done es
      → (f : String) → lookup f es ≡ value k f w
  pub hgetall_value :
      (k : String) (w : W) (j g : String) → value j g (h.hgetall k w).1 ≡ value j g w
