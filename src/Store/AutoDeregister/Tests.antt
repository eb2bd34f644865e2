-- ===== src/Store/AutoDeregister/Tests.antt =====
-- auto_deregister.rs over one counter in memory.
use nomad_scale_to_zero.Prelude.{ℕ, String, ◌≤◌, ◌+◌, ◌≡◌, refl, arith}
use nomad_scale_to_zero.Core.Effect.{done}
use nomad_scale_to_zero.Store.AutoDeregister.{
  RedisCounters, CounterLaws, increment_not_found, clear_not_found, increment_not_found-clear,
}

abbrev pub counter : RedisCounters ℕ
counter = record { incr = λ k w. (done (w + 1), w + 1); del = λ k w. (done 1, 0) }

pub counter_answer : (k : String) (w n : ℕ) → (counter.incr k w).0 ≡ done n → n ≡ w + 1
counter_answer k w n h = ground arith

pub counter_bound : (w : ℕ) → w + 1 ≤ w + 1
counter_bound w = omega arith

unfoldable pub counter_laws : CounterLaws counter
counter_laws = record {
  value = λ k w. w;
  incr_answer = counter_answer;
  incr_value = λ k w n h. refl;
  incr_refused = λ k w m h. counter_bound w;
  del_value = λ k w n h. refl;
}

counts_two : ◌≡◌ {A = ℕ} 2 2
unfolding increment_not_found clear_not_found counter_laws
counts_two =
    increment_not_found-clear counter counter_laws "web" 2 7 2 refl (1, refl, (2, refl, refl))
