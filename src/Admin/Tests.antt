-- ===== src/Admin/Tests.antt =====
-- src/main.rs: a purge on concrete services; the state is not used.
use nomad_scale_to_zero.Prelude.{◌≡◌, ◌⊎◌, refl, Bool, true, false}
use nomad_scale_to_zero.Core.Error.{ok}
use nomad_scale_to_zero.Admin.{admin_purge_job}
use nomad_scale_to_zero.Admin.Samples.{state}
use nomad_scale_to_zero.Admin.Purge.{Gone, purge_ok-Gone}

purge_ok-Gone_example :
    ((state.in_flight.count "web" 7 ≡ 0) ⊎ (◌≡◌ {A = Bool} false true))
    × Gone state "web" (state.stop_and_purge_job "web" 7).0
    × ((state.registry.deregister "web" 7).0 ≡ ok tt)
unfolding admin_purge_job
purge_ok-Gone_example = purge_ok-Gone state "web" false 7 refl
