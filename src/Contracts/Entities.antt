-- ===== src/Contracts/Entities.antt =====
-- packages/contracts/src/entities.ts. Identifiers and timestamps are texts.
use avity_os.Base.{ℕ, String}
use avity_os.Contracts.Enums.{MissionState}

-- The fields of a Mission that orchestration reads; the others are its texts and its Git data.
pub record Mission : Type 0 where
  pub id : String
  pub project_id : String
  pub state : MissionState
  pub correction_attempts : ℕ
  pub max_correction_attempts : ℕ
  pub priority : ℕ
  pub created_at : String

pub record MissionDependency : Type 0 where
  pub mission_id : String
  pub depends_on_mission_id : String
