-- ===== src/ControlPlane/Store.antt =====
-- services/control-plane/src/store.ts and db.ts: the tables that the lifecycle reads and writes, and
-- transactions. A table is a map from its primary key, in the order of insertion, which is that of
-- `created_at`. NULL is `none`.
pub mod Actions
use avity_os.Base.{ℕ, String, Bool, List, Option}
use avity_os.Contracts.{MissionState, RunState, ProjectStatus}
use avity_os.Orchestration.Machines.{IllegalTransition}

pub record ProjectRow : Type 0 where
  pub status : ProjectStatus
  pub pause_generation : ℕ
  pub status_before_pause : Option ProjectStatus
  pub paused_reason : Option String
  pub paused_at : Option String
  pub paused_by : Option String
  pub updated_at : String

pub record PauseRow : Type 0 where
  pub project_id : String
  pub is_active : Bool
  pub reason : String
  pub actor : String
  pub previous_status : ProjectStatus
  pub generation : ℕ
  pub idempotency_key : Option String
  pub cancelling_run_ids : List String
  pub created_at : String
  pub resumed_at : Option String

pub record MissionRow : Type 0 where
  pub project_id : String
  pub state : MissionState
  pub state_reason : Option String
  pub paused_from_state : Option MissionState
  pub branch_name : Option String
  pub worktree_path : Option String
  pub baseline_commit : Option String
  pub correction_attempts : ℕ
  pub updated_at : String

pub record RunRow : Type 0 where
  pub project_id : String
  pub mission_id : String
  pub provider_id : Option String
  pub model : Option String
  pub worker_id : Option String
  pub state : RunState
  pub exit_reason : Option String
  pub error_category : Option String
  pub started_at : Option String
  pub ended_at : Option String
  pub updated_at : String

-- A lease's end is a time in milliseconds, and an exit code is from 0 up.
pub record TerminalRow : Type 0 where
  pub project_id : String
  pub run_id : Option String
  pub worker_id : Option String
  pub command : List String
  pub cwd : String
  pub state : RunState
  pub exit_code : Option ℕ
  pub required_capabilities : List String
  pub lease_expires_at : Option ℕ
  pub lease_token_hash : Option String
  pub lease_attempts : ℕ
  pub updated_at : String

pub record WorkerRow : Type 0 where
  pub is_online : Bool
  pub capabilities : List String
  pub max_concurrent_runs : ℕ
  pub last_heartbeat_at : Option ℕ
  pub updated_at : String

-- An event's type with its payload.
pub data Event : Type 0 where
  project_status_changed : (from status : ProjectStatus) → Event
  project_paused :
      (reason actor : String)
      → (generation : ℕ) → (previous : ProjectStatus) → (cancelling_run_ids : List String) → Event
  project_resumed :
      (actor : String)
      → (previous : ProjectStatus) → (missions : List (String × MissionState)) → Event
  mission_state_changed : (from to : MissionState) → (reason : String) → Event
  run_created : (model : Option String) → Event
  run_state_changed : (from to : RunState) → (exit_reason error_category : Option String) → Event
  run_fenced_generation : (expected : Option ℕ) → (actual : ℕ) → Event
  run_fenced_state : RunState → Event
  lease_fenced : (terminal_id : String) → (worker_id : Option String) → Event
  terminal_queued : (terminal_id : String) → (command : List String) → Event
  terminal_output : (terminal_id : String) → (state : RunState) → (exit_code : Option ℕ) → Event

pub record Scope : Type 0 where
  pub project_id : Option String
  pub mission_id : Option String
  pub run_id : Option String

pub record EventRow : Type 0 where
  pub seq : ℕ
  pub id : String
  pub scope : Scope
  pub created_at : String
  pub event : Event

pub record AuditRow : Type 0 where
  pub id : String
  pub created_at : String
  pub project_id : Option String
  pub actor : String
  pub action : String
  pub detail : String
  pub entry_hash : String
  pub previous_hash : Option String

pub record Store : Type 0 where
  pub projects : List (String × ProjectRow)
  pub project_pauses : List (String × PauseRow)
  pub missions : List (String × MissionRow)
  pub runs : List (String × RunRow)
  pub terminals : List (String × TerminalRow)
  pub workers : List (String × WorkerRow)
  pub events : List EventRow
  pub audit_entries : List AuditRow
  pub idempotency_keys : List (String × (String × String))

pub data Conflict : Type 0 where
  project_paused project_not_paused illegal_transition conflict : Conflict

-- What a method throws.
pub data StoreError : Type 0 where
  not_found : (id : String) → StoreError
  store_conflict : Conflict → StoreError
  illegal : IllegalTransition → StoreError
  constraint : StoreError

-- The random identifiers, of which `new_id` gives the n-th with its prefix, SHA-256, and the redaction
-- of secrets in texts and in events.
pub record Host : Type 0 where
  pub new_id : (prefix : String) → ℕ → String
  pub sha256 : String → String
  pub redact : String → String
  pub redact_event : Event → Event
