-- ===== src/Store/Activity/Instance.antt =====
-- activity.rs: the making of a store, and the identity of a replica, from the time and its process id.
use Prim.Native.Char.{Char, nul}
use Prim.Native.String.append
use text.Mathlib.TextLemmas.{append-nil, append_cancel_left}
use nomad_scale_to_zero.Core.Error.{ok, store}
use nomad_scale_to_zero.Core.Effect.{Exec, Call, Reply, done, refused, from, map_err, wrap, ◌>>=◌}
use nomad_scale_to_zero.Store.Activity.{
  RedisKeys, RedisActivityStore, lock_key, try_acquire_lock, release_lock,
}
use nomad_scale_to_zero.Store.Activity.Locks.{LockLaws, lock_exclusive}
use nomad_scale_to_zero.Prelude.{
  ℕ, zero, suc, ◌+◌, ◌*◌, ◌/◌, ◌%◌, ◌^◌, ◌<◌, String, Bool, true, leb, nat_eq, ◌&&◌, Option, some,
  ◌≡◌, ◌∙◌, refl, ap, arith, if◌then◌else◌, Bool-cases, inl, inr, sym, subst, unwrap_or, ◌≢◌,
}
use nomad_scale_to_zero.Prelude.Text.{append, same}

char_at : ℕ → String → Char
char_at n String.[] = nul
char_at zero (String.◌∷◌ c s) = c
char_at (suc n) (String.◌∷◌ c s) = char_at n s

abbrev digits : String
digits = "0123456789abcdef"

-- `{:x}`, on fuel: one unit for each digit.
hex_digits : ℕ → ℕ → String → String
unfolding char_at
hex_digits zero n acc = acc
hex_digits (suc f) n acc =
    let more = hex_digits f (n / 16) (String.◌∷◌ (char_at (n % 16) digits) acc) in
    if leb n 15 then String.◌∷◌ (char_at n digits) acc else more

-- A `u128` and a `u32` have at most 32 digits.
pub hex : ℕ → String
unfolding hex_digits
hex n = hex_digits 32 n ""

-- `format!("nscale-{}", uuid_v4_simple())`, of the time and the process id.
unfoldable pub instance_id : ℕ → ℕ → String
unfolding hex
instance_id nanos pid = append "nscale-" (append (hex nanos) (append "-" (hex pid)))

position : Char → String → ℕ
position c String.[] = 0
position c (String.◌∷◌ d s) = let later = position c s in if same c d then 0 else suc later

value : Char → ℕ
unfolding position
value c = position c digits

-- What a text says up to the first character that is no digit, and what follows that.
scan : String → ℕ → ℕ × String
scan String.[] v = (v, "")
scan (String.◌∷◌ c s) v =
    let later = scan s (16 * v + value c) in if leb (value c) 15 then later else (v, s)

right_below : ℕ → Bool
right_below zero = true
right_below (suc n) = nat_eq (value (char_at n digits)) n && right_below n

value-char_at : (k n : ℕ) → right_below k ≡ true → n < k → value (char_at n digits) ≡ n
unfolding right_below
value-char_at zero n h lt = absurd (omega arith)
value-char_at (suc k) n h lt = elim (Bool-cases (nat_eq n k)) [
  | inl e ↦ ground (arith, e)
  | inr e ↦ value-char_at k n (ground arith) (ground (arith, e))
]

all_right : right_below 16 ≡ true
unfolding right_below value char_at
all_right = refl

value_digit : (n : ℕ) → n < 16 → value (char_at n digits) ≡ n
value_digit n lt = value-char_at 16 n all_right lt

scan-digit :
    (n v t : ℕ) (s : String)
    → n < 16
    → 16 * v + n ≡ t
    → scan (String.◌∷◌ (char_at n digits) s) v ≡ scan s t
unfolding scan
scan-digit n v t s lt e =
    let le : leb n 15 ≡ true = ground (arith, lt) in rw (value_digit n lt, le, e) refl

scan-hex_digits : (f n : ℕ) (acc : String) → n < 16 ^ f → scan (hex_digits f n acc) 0 ≡ scan acc n
unfolding hex_digits
scan-hex_digits zero n acc lt = ap (scan acc) (omega arith)
scan-hex_digits (suc f) n acc lt = elim (Bool-cases (leb n 15)) [
  | inl e ↦ rw (e) (scan-digit n 0 n acc (ground (arith, e)) (omega arith))
  | inr e ↦ rw (e) (
      scan-hex_digits f (n / 16) (String.◌∷◌ (char_at (n % 16) digits) acc) (omega arith)
      ∙ scan-digit (n % 16) (n / 16) n acc (omega arith) (omega arith))
]

hex_digits-append :
    (f n : ℕ) (acc s : String) → append (hex_digits f n acc) s ≡ hex_digits f n (append acc s)
unfolding hex_digits
hex_digits-append zero n acc s = refl
hex_digits-append (suc f) n acc s = elim (Bool-cases (leb n 15)) [
  | inl e ↦ rw (e) (append.cons (char_at n digits) acc s)
  | inr e ↦ rw (e) (
      hex_digits-append f (n / 16) (String.◌∷◌ (char_at (n % 16) digits) acc) s
      ∙ ap (hex_digits f (n / 16)) (append.cons (char_at (n % 16) digits) acc s))
]

-- 2 ^ 128 and 2 ^ 32
scan-hex : (n : ℕ) (s : String) → n < 2 ^ 128 → scan (append (hex n) s) 0 ≡ scan s n
unfolding hex
scan-hex n s lt =
    ap (λ t. scan t 0) (hex_digits-append 32 n "" s ∙ ap (hex_digits 32 n) (append.nil s))
    ∙ scan-hex_digits 32 n s lt

scan-first : (n p : ℕ) → n < 2 ^ 128 → scan (append (hex n) (append "-" (hex p))) 0 ≡ (n, hex p)
unfolding scan value
scan-first n p lt =
    scan-hex n (append "-" (hex p)) lt
    ∙ ap (λ t. scan t n) (append.cons _ String.[] (hex p))
    ∙ ap (λ t. (n, t)) (append.nil (hex p))

scan-last : (p : ℕ) → p < 2 ^ 32 → scan (hex p) 0 ≡ (p, "")
unfolding scan value
scan-last p lt = ap (λ t. scan t 0) (sym (append-nil (hex p))) ∙ scan-hex p "" (omega arith)

-- The identity tells the time and the process id.
pub instance_id-inj :
    (n m p q : ℕ)
    → n < 2 ^ 128
    → m < 2 ^ 128
    → p < 2 ^ 32
    → q < 2 ^ 32
    → instance_id n p ≡ instance_id m q
    → (n ≡ m) × (p ≡ q)
unfolding instance_id
instance_id-inj n m p q ln lm lp lq e =
    let same_text = append_cancel_left "nscale-" _ _ e in
    let both = sym (scan-first n p ln) ∙ ap (λ t. scan t 0) same_text ∙ scan-first m q lm in
    let last = sym (scan-last p lp) ∙ ap (λ (x : ℕ × String). scan x.1 0) both ∙ scan-last q lq in
    (ap (λ (x : ℕ × String). x.0) both, ap (λ (x : ℕ × String). x.0) last)

module _ {W C : Type 0} (from_url : String → Reply C) (build : C → Reply (RedisKeys W))
    (init : RedisKeys W → Call W (Unit {0})) (now : W → ℕ) (nanos : W → Option ℕ) where
  abbrev pub started : W → ℕ
  started w = unwrap_or (nanos w) 0

  abbrev pub made : RedisKeys W → ℕ → W → RedisActivityStore W
  made client pid w = record {
    client = client;
    instance_id = instance_id (started w) pid;
    now = now;
  }

  -- In a process with the given id.
  unfoldable pub new : String → ℕ → Exec W (RedisActivityStore W)
  new url pid = from (map_err store (from_url url)) >>= λ config.
      from (map_err store (build config)) >>= λ client.
      wrap store (init client) >>= λ u w. (ok (made client pid w), w)

  abbrev pub connected : String → Reply (RedisKeys W)
  connected url = elim (from_url url) [ done c ↦ build c | refused m ↦ refused m ]

  new-made :
      (url : String) (pid : ℕ) (w : W) (a : RedisActivityStore W)
      → (new url pid w).0 ≡ ok a
      → (connected url ≡ done a.client) × (a ≡ made a.client pid (new url pid w).1)
  unfolding new
  new-made url pid w a h = (ground arith, ground arith)

  -- Two processes that connect to one Redis, of which the process ids differ or the times at which they
  -- had connected, as a `u128` holds them: once the store of one has acquired a lock, then in any later
  -- state in which the lock has not changed, the store of the other neither acquires it nor frees it by
  -- its own release, whether that succeeds or fails.
  pub replicas_exclude :
      (url key : String) (p q ttl ttl' : ℕ) (w v x y : W) (a b : RedisActivityStore W)
      → (new url p w).0 ≡ ok a
      → (new url q v).0 ≡ ok b
      → LockLaws a.client
      → p < 2 ^ 32
      → q < 2 ^ 32
      → started (new url p w).1 < 2 ^ 128
      → started (new url q v).1 < 2 ^ 128
      → ¬ ((started (new url p w).1 ≡ started (new url q v).1) × (p ≡ q))
      → (try_acquire_lock a key ttl x).0 ≡ ok true
      → a.client.get (lock_key key) y ≡ a.client.get (lock_key key) (try_acquire_lock a key ttl x).1
      → ((try_acquire_lock b key ttl' y).0 ≢ ok true)
        × (a.client.get (lock_key key) (release_lock b key y).1 ≡ some a.instance_id)
  replicas_exclude url key p q ttl ttl' w v x y a b ma mb laws lp lq lw lv d h same =
      let (ca, ea) = new-made url p w a ma in
      let (cb, eb) = new-made url q v b mb in
      let client : a.client ≡ b.client = ground arith in
      let copy : record a { instance_id = b.instance_id } ≡ b =
        ap (λ c. record a { client = c; instance_id = b.instance_id }) client
        ∙ ap (λ (n : W → ℕ). record b { now = n })
            (ap (λ (s : RedisActivityStore W). s.now) ea
              ∙ ap (λ (s : RedisActivityStore W). s.now) (sym eb)) in
      let apart : b.instance_id ≢ a.instance_id = λ e. d (
        instance_id-inj _ _ p q lw lv lp lq (
          ap (λ (s : RedisActivityStore W). s.instance_id) (sym ea)
          ∙ sym e
          ∙ ap (λ (s : RedisActivityStore W). s.instance_id) eb)) in
      subst
        (λ (s : RedisActivityStore W).
          ((try_acquire_lock s key ttl' y).0 ≢ ok true)
          × (a.client.get (lock_key key) (release_lock s key y).1 ≡ some a.instance_id))
        copy (lock_exclusive a laws b.instance_id key ttl ttl' x y apart h same)
