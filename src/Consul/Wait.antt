-- ===== src/Consul/Wait.antt =====
-- health.rs: the wait for a healthy instance of a service ends.
use nomad_scale_to_zero.Prelude.{
  ℕ, zero, suc, ◌+◌, ◌-◌, ◌*◌, ◌≤◌, ◌<◌, String, Bool, true, false, not, Option, some, List, [],
  ◌∷◌, ◌++◌, find, leb, ◌⊎◌, ◌≡◌, refl, arith, Bool-cases, Option-cases, inl, inr, leb→le, ap,
}
use nomad_scale_to_zero.Core.Job.{ServiceName, Endpoint}
use nomad_scale_to_zero.Core.Error.{http, wake_timeout, Result, ok, err}
use nomad_scale_to_zero.Core.Effect.{Reply, done, refused}
use nomad_scale_to_zero.Nomad.Client.{is_success}
use nomad_scale_to_zero.Consul.{
  HealthEntry, Outgoing, get, Response, ConsulClient, url, is_fallback, endpoint_of, second,
  wait_secs, health_path, Turn, again, finished, next_index, choose, read_entries, read_health,
  received, turn, go_on, turns, wait_for_healthy_service,
}

find-split {ℓ} :
    {A : Type ℓ} (p : A → Bool) (l : List A) (x : A)
    → find p l ≡ some x
    → (xs : List A) × (ys : List A) × (l ≡ xs ++ (x ∷ ys)) × (p x ≡ true)
find-split p [] x h = absurd (ground arith)
find-split p (y ∷ l) x h = elim (Bool-cases (p y)) [
  | inl e ↦ ([], l, ground (arith, e), ground (arith, e))
  | inr e ↦
      (let later = find-split p l x (ground (arith, e)) in
        (y ∷ later.0, later.1, ground (arith, later.2), later.3))
]

module _ {W : Type 0} (c : ConsulClient W) (service : ServiceName) (timeout : ℕ) where
  -- An instance of the service that Consul listed in an answer to a health request, without the tag of
  -- the fallback.
  pub record Offered (ep : Endpoint) : Type 0 where
    pub consul_index : ℕ
    pub secs : ℕ
    pub asked : W
    pub answered : W
    pub response : Response W
    pub sent :
        c.send (get (url c (health_path service consul_index secs))) asked
        ≡ (done response, answered)
    pub before : List HealthEntry
    pub entry : HealthEntry
    pub behind : List HealthEntry
    pub listed : (response.json_entries answered).0 ≡ done (before ++ (entry ∷ behind))
    pub real : is_fallback entry ≡ false
    pub endpoint : ep ≡ endpoint_of entry

  -- What the function returns, and when.
  abbrev pub Outcome : ℕ → Result Endpoint → W → Type 0
  Outcome deadline (ok ep) w = Offered ep
  Outcome deadline (err e) w =
      ((e ≡ wake_timeout service timeout) × (deadline ≤ c.clock w)) ⊎ ((m : String) × (e ≡ http m))

  abbrev Fine : ℕ → ℕ → Turn W → Type 0
  Fine deadline start (again i w) = (start < c.clock w) × (start < deadline)
  Fine deadline start (finished r w) = Outcome deadline r w

  -- The function has returned, and rightly.
  abbrev pub Returns : ℕ → Option (Result Endpoint) × W → Type 0
  Returns deadline out = (r : Result Endpoint) × (out.0 ≡ some r) × Outcome deadline r out.1

  -- Every request takes time, and the clock never goes back.
  module _ (takes_time : (out : Outgoing) (w : W) → c.clock w < c.clock (c.send out w).1)
      (reads_on : (out : Outgoing) (w : W) (resp : Response W)
        → (c.send out w).0 ≡ done resp
        → (v : W)
        → (c.clock v ≤ c.clock (resp.text v).1) × (c.clock v ≤ c.clock (resp.json_entries v).1))
      (sleeps_on : (n : ℕ) (w : W) → c.clock w ≤ c.clock (c.sleep n w)) where
    module _ (deadline start i secs : ℕ) (asked answered : W) (resp : Response W)
        (sent : c.send (get (url c (health_path service i secs))) asked ≡ (done resp, answered))
        (early : start < deadline) where
      listed-Fine :
          (next : ℕ) (r : Reply (List HealthEntry)) (v : W)
          → (resp.json_entries answered).0 ≡ r
          → start < c.clock v
          → Fine deadline start (read_entries c next r v)
      unfolding read_entries
      listed-Fine next (refused m) v h lt = inr (m, refl)
      listed-Fine next (done entries) v h lt =
          elim (Option-cases (find (λ (e : HealthEntry). not (is_fallback e)) entries)) [
            | inl e ↦ rw (e, choose) (lt, early)
            | inr (entry, e) ↦
                (let parts =
                    find-split (λ (e : HealthEntry). not (is_fallback e)) entries entry e in
                  rw (e, choose)
                    (record {
                      consul_index = i;
                      secs = secs;
                      asked = asked;
                      answered = answered;
                      response = resp;
                      sent = sent;
                      before = parts.0;
                      entry = entry;
                      behind = parts.1;
                      listed = rw (← parts.2) h;
                      real = ground (arith, parts.3);
                      endpoint = refl;
                    }))
          ]

      read-Fine :
          (next : ℕ)
          → start < c.clock answered
          → Fine deadline start (read_health c next resp answered)
      unfolding read_health
      read-Fine next lt =
          let later =
            reads_on (get (url c (health_path service i secs))) asked resp
              (ap (λ (x : Reply (Response W) × W). x.0) sent) answered in
          elim (Bool-cases (is_success resp.status)) [
            | inl e ↦
                rw (e, read_health)
                  (listed-Fine next (resp.json_entries answered).0 (resp.json_entries answered).1
                    refl (omega (arith, later.1)))
            | inr e ↦
                rw (e, read_health)
                  (omega (arith, later.0, sleeps_on 500000000 (resp.text answered).1), early)
          ]

    received-Fine :
        (deadline start i secs : ℕ) (w : W) (x : Reply (Response W) × W)
        → c.send (get (url c (health_path service i secs))) w ≡ x
        → start < c.clock x.1
        → start < deadline
        → Fine deadline start (received c i x.0 x.1)
    unfolding received
    received-Fine deadline start i secs w (refused m, v) h lt early = inr (m, refl)
    received-Fine deadline start i secs w (done resp, v) h lt early =
        read-Fine deadline start i secs w v resp h early (next_index c i resp) lt

    turn-Fine :
        (deadline i : ℕ) (w : W) → Fine deadline (c.clock w) (turn c service timeout deadline i w)
    unfolding turn
    turn-Fine deadline i w = elim (Bool-cases (leb deadline (c.clock w))) [
      | inl e ↦ rw (e, turn) (inl (refl, leb→le deadline (c.clock w) e))
      | inr e ↦
          rw (e, turn)
            (received-Fine deadline (c.clock w) i (wait_secs timeout (deadline - c.clock w)) w
              (c.send
                (get (url c (health_path service i (wait_secs timeout (deadline - c.clock w))))) w)
              refl
              (takes_time
                (get (url c (health_path service i (wait_secs timeout (deadline - c.clock w))))) w)
              (ground (arith, e)))
    ]

    turned :
        (n deadline start : ℕ) (x : Turn W)
        → Fine deadline start x
        → deadline < start + suc n
        → ((i : ℕ) (w : W)
            → deadline < c.clock w + n
            → 0 < n
            → Returns deadline (turns c n service timeout deadline i w))
        → Returns deadline (go_on c x (turns c n service timeout deadline))
    turned n deadline start (again i w) h lt k = k i w (omega (arith, h.0)) (omega (arith, h.1))
    turned n deadline start (finished r w) h lt k = (r, refl, h)

    turns-Returns :
        (n deadline i : ℕ) (w : W)
        → deadline < c.clock w + n
        → 0 < n
        → Returns deadline (turns c n service timeout deadline i w)
    unfolding turns
    turns-Returns zero deadline i w lt pos = absurd (omega arith)
    turns-Returns (suc n) deadline i w lt pos =
        turned n deadline (c.clock w) (turn c service timeout deadline i w) (turn-Fine deadline i w)
          lt (λ (j : ℕ) (v : W). turns-Returns n deadline j v)

    -- The wait for a healthy instance ends, with one turn of its loop for each nanosecond of the timeout
    -- and one more as fuel, if every request takes a nanosecond at least and the clock never goes back.
    -- It returns the endpoint of an entry that Consul listed in an answer to a health request for this
    -- service, without the tag of the fallback, or the timeout's error once the deadline has passed, or
    -- an HTTP error.
    pub wait_ends :
        (w : W)
        → Returns
            (c.clock w + timeout * second)
            (wait_for_healthy_service c (suc (timeout * second)) service timeout w)
    unfolding wait_for_healthy_service
    wait_ends w =
        turns-Returns (suc (timeout * second)) (c.clock w + timeout * second) 0 w (omega arith)
          (omega arith)
