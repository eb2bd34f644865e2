-- ===== src/Scaler/Controller/Lock.antt =====
-- controller.rs over activity.rs: the lock that the replicas share.
use nomad_scale_to_zero.Prelude.{
  String, ◌≡◌, ◌≢◌, refl, true, false, Bool, some, arith, if◌then◌else◌,
}
use nomad_scale_to_zero.Core.Error.{Result, ok, err}
use nomad_scale_to_zero.Core.Effect.{pure, continue}
use nomad_scale_to_zero.Store.Activity.{RedisActivityStore, lock_key, try_acquire_lock, service}
use nomad_scale_to_zero.Store.Activity.Locks.{LockLaws, acquired}
use nomad_scale_to_zero.Scaler.Controller.{
  ScaleDownController, State, scale_down_lock_key, lock_ttl, tick, guarded, locked_tick,
}

module _ {W : Type 0} (c : ScaleDownController W) (a : RedisActivityStore W) where
  -- The controller with the activity store on Redis.
  abbrev pub on_redis : ScaleDownController W
  on_redis = record c { store = service a }

  not_acquired :
      (r : Result Bool) (s : State W)
      → r ≢ ok true
      → (continue r
          (λ (b : Bool). if b then guarded on_redis (locked_tick on_redis) else pure tt)
          s).1
        ≡ s
  not_acquired (ok true) s n = absurd (n refl)
  not_acquired (ok false) s n = refl
  not_acquired (err e) s n = refl

-- While anybody holds the lock in Redis, this replica included, a whole tick does nothing but ask
-- for the lock: no job is looked at, nothing is scaled down or marked dormant, no deferral changes, and the lock is not released.
pub tick-locked_out :
    {W : Type 0} (c : ScaleDownController W) (a : RedisActivityStore W) (laws : LockLaws a.client)
    (s : State W) (holder : String)
    → a.client.get (lock_key scale_down_lock_key) s.world ≡ some holder
    → (tick (on_redis c a) s).1
      ≡ record s { world = (try_acquire_lock a scale_down_lock_key (lock_ttl c) s.world).1 }
unfolding tick
tick-locked_out c a laws s holder held =
    not_acquired c a (try_acquire_lock a scale_down_lock_key (lock_ttl c) s.world).0 _
      (λ q. ground (arith, (acquired a laws scale_down_lock_key (lock_ttl c) s.world q).0))
