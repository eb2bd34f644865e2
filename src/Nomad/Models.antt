-- ===== src/Nomad/Models.antt =====
-- crates/nscale-nomad/src/models.rs: what is sent to Nomad and what it answers.
use nomad_scale_to_zero.Prelude.Json.{Value}
use nomad_scale_to_zero.Prelude.{ℕ, String, Bool, Option, List, ◌==◌, ◌&&◌}

pub record ParseJobRequest : Type 0 where
  pub job_hcl : String
  pub canonicalize : Bool
  pub variables : Option String

pub record JobSubmitResponse : Type 0 where
  pub eval_id : String
  pub job_modify_index : ℕ
  pub warnings : Option String

pub record JobStopResponse : Type 0 where
  pub eval_id : String
  pub eval_create_index : ℕ
  pub job_modify_index : ℕ

-- The target is the group that it wraps.
pub record ScaleRequest : Type 0 where
  pub count : Option ℕ
  pub target : String
  pub message : Option String

pub record TaskGroup : Type 0 where
  pub name : String
  pub count : ℕ

pub record Job : Type 0 where
  pub id : String
  pub name : String
  pub status : String
  pub task_groups : List TaskGroup

pub record Port : Type 0 where
  pub label : String
  pub value : ℕ

pub record PortMapping : Type 0 where
  pub label : String
  pub value : ℕ
  pub to : ℕ
  pub host_ip : String

pub record NetworkResource : Type 0 where
  pub ip : String
  pub dynamic_ports : List Port
  pub reserved_ports : List Port

pub record SharedResources : Type 0 where
  pub ports : List PortMapping
  pub networks : List NetworkResource

pub record AllocatedResources : Type 0 where
  pub shared : Option SharedResources

pub record AllocResources : Type 0 where
  pub networks : List NetworkResource

pub record Allocation : Type 0 where
  pub id : String
  pub job_id : String
  pub client_status : String
  pub desired_status : String
  pub task_group : String
  pub resources : Option AllocResources
  pub allocated_resources : Option AllocatedResources

unfoldable pub is_running : Allocation → Bool
is_running a = (a.client_status == "running") && (a.desired_status == "run")

-- The frames of the event stream; a heartbeat has no events.
pub record EventEnvelope : Type 0 where
  pub topic : String
  pub event_type : String
  pub payload : Value

pub record EventStreamFrame : Type 0 where
  pub events : List EventEnvelope
  pub index : ℕ

-- An event of the stream as the consumer passes it on (events.rs).
pub record NomadEvent : Type 0 where
  pub index : ℕ
  pub topic : String
  pub event_type : String
  pub payload : Value
