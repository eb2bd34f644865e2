-- ===== src/Admin/Sync.antt =====
-- src/main.rs: the registration of one job or many, and the readiness check.
use nomad_scale_to_zero.Prelude.{ℕ, ◌+◌, ◌%◌, ◌<◌, String, List, [], ◌∷◌, length, ◌≡◌, refl, arith}
use nomad_scale_to_zero.Prelude.Text.{append}
use nomad_scale_to_zero.Core.Job.{JobRegistration}
use nomad_scale_to_zero.Core.Error.{to_string, Result, ok, err}
use nomad_scale_to_zero.Core.Effect.{on, ignore}
use nomad_scale_to_zero.Admin.{AdminState}

pub record TextAnswer : Type 0 where
  pub status : ℕ
  pub body : String

pub record SyncAnswer : Type 0 where
  pub synced : ℕ
  pub failed : ℕ
  pub total : ℕ

-- `u32`
abbrev pub u32_mod : ℕ
u32_mod = 4294967296

module _ {W : Type 0} (state : AdminState W) where
  pub ready : {A : Type 0} → Result A → W → TextAnswer × W
  ready (ok jobs) w = (record { status = 200; body = "ready" }, w)
  ready (err e) w = (record { status = 503; body = append "not ready: " (to_string e) }, w)

  pub readyz : W → TextAnswer × W
  unfolding ready
  readyz w = on state.registry.list_all ready w

  pub register_answered : JobRegistration → Result (Unit {0}) → W → TextAnswer × W
  register_answered reg (ok u) w = (
    record { status = 201; body = "registered" },
    ignore (state.activity_store.record_activity reg.job_id) w,
  )
  register_answered reg (err e) w =
      (record { status = 500; body = append "error: " (to_string e) }, w)

  pub admin_register : JobRegistration → W → TextAnswer × W
  unfolding register_answered
  admin_register reg w = on (state.registry.register reg) (register_answered reg) w

  -- The two counters after a registration, and the activity that a success seeds.
  abbrev pub Counters : Type 0
  Counters = ℕ × ℕ

  pub counted : JobRegistration → Result (Unit {0}) → Counters → W → Counters × W
  counted reg (ok u) (synced, failed) w =
      (((synced + 1) % u32_mod, failed), ignore (state.activity_store.record_activity reg.job_id) w)
  counted reg (err e) (synced, failed) w = ((synced, (failed + 1) % u32_mod), w)

  pub sync_all : List JobRegistration → Counters → W → Counters × W
  unfolding counted
  sync_all [] n w = (n, w)
  sync_all (reg ∷ rest) n w =
      let outcome = state.registry.register reg w in
      let next = counted reg outcome.0 n outcome.1 in sync_all rest next.0 next.1

  pub admin_sync : List JobRegistration → W → SyncAnswer × W
  unfolding sync_all
  admin_sync registrations w =
      let done = sync_all registrations (0, 0) w in
      (record { synced = (done.0).0; failed = (done.0).1; total = length registrations }, done.1)

  counted_one :
      (reg : JobRegistration) (r : Result (Unit {0})) (a b : ℕ) (w : W)
      → a + b + 1 < u32_mod
      → ((counted reg r (a, b) w).0).0 + ((counted reg r (a, b) w).0).1 ≡ a + b + 1
  unfolding counted
  counted_one reg (ok u) a b w h = omega arith
  counted_one reg (err e) a b w h = omega arith

  sync_all_total :
      (regs : List JobRegistration) (a b : ℕ) (w : W)
      → a + b + length regs < u32_mod
      → ((sync_all regs (a, b) w).0).0 + ((sync_all regs (a, b) w).0).1 ≡ a + b + length regs
  unfolding sync_all
  sync_all_total [] a b w h = omega arith
  sync_all_total (reg ∷ rest) a b w h =
      let outcome = state.registry.register reg w in
      let next = counted reg outcome.0 (a, b) outcome.1 in
      omega (
        arith,
        counted_one reg outcome.0 a b outcome.1,
        sync_all_total rest (next.0).0 (next.0).1 next.1,
      )

  -- The counters of a sync: for fewer than 2 ^ 32 registrations neither wraps, and together they are
  -- the number of the registrations that were sent.
  pub sync_counts :
      (regs : List JobRegistration) (w : W)
      → length regs < u32_mod
      → ((admin_sync regs w).0.synced + (admin_sync regs w).0.failed ≡ (admin_sync regs w).0.total)
        × ((admin_sync regs w).0.total ≡ length regs)
  unfolding admin_sync
  sync_counts regs w h = (omega (arith, sync_all_total regs 0 0 w), refl)
