-- ===== src/Nomad/Client/Endpoints.antt =====
-- client.rs: the endpoint of an allocation.
use nomad_scale_to_zero.Prelude.{Option, none, some, List, [], ◌∷◌, ◌==◌, ◌||◌, if◌then◌else◌}
use nomad_scale_to_zero.Prelude.Text.{is_empty}
use nomad_scale_to_zero.Core.Job.{Endpoint}
use nomad_scale_to_zero.Nomad.Models.{Allocation}

-- `networks.first()`
unfoldable pub first {ℓ} : {A : Type ℓ} → List A → Option A
first [] = none
first (x ∷ xs) = some x

-- `allocated_resources`, its `shared`, and the first of its ports.
pub from_ports : Allocation → Option Endpoint
unfolding first
from_ports a = elim a.allocated_resources [
  | none ↦ none
  | some allocated ↦ elim allocated.shared [
    | none ↦ none
    | some shared ↦ elim (first shared.ports) [
      | none ↦ none
      | some port ↦ some (record {
        host =
            if is_empty port.host_ip || (port.host_ip == "0.0.0.0")
            then elim (first shared.networks) [ none ↦ "127.0.0.1" | some n ↦ n.ip ]
            else port.host_ip;
        port = port.value;
      })
    ]
  ]
]

-- The fallback to `resources`.
pub from_networks : Allocation → Option Endpoint
unfolding first
from_networks a = elim a.resources [
  | none ↦ none
  | some resources ↦ elim (first resources.networks) [
    | none ↦ none
    | some net ↦ elim (first net.dynamic_ports) [
      | some p ↦ some (record { host = net.ip; port = p.value })
      | none ↦ elim (first net.reserved_ports) [
        | some p ↦ some (record { host = net.ip; port = p.value })
        | none ↦ none
      ]
    ]
  ]
]

unfoldable pub extract_endpoint : Allocation → Option Endpoint
unfolding from_ports from_networks
extract_endpoint a = elim (from_ports a) [ some ep ↦ some ep | none ↦ from_networks a ]
