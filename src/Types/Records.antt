-- ===== src/Types/Records.antt =====
-- pkg/types/types.go: the records of workflows and runs. `Any` is Go's `any`; `Float` its float64.
-- Times and durations are numbers and integers of nanoseconds.
use tempest.Base.{ℕ, String, Bool, Option, List, ℤ, string_eq, nat_eq}
use tempest.Types.{RunState, StepState}

pub record WorkflowId : Type 0 where
  pub namespace : String
  pub name : String
  pub version : ℤ

pub record RetryPolicy (Float : Type 0) : Type 0 where
  pub max_attempts : ℤ
  pub initial_interval : ℤ
  pub max_interval : ℤ
  pub multiplier : Float
  pub max_elapsed : ℤ

pub record StepDefinition (Float : Type 0) : Type 0 where
  pub id : String
  pub handler : String
  pub depends_on : List String
  pub timeout : ℤ
  pub retry : RetryPolicy Float
  pub input_schema : String
  pub output_schema : String
  pub is_gateway : Bool
  pub continue_on_err : Bool

pub record WorkflowDefinition (Float : Type 0) : Type 0 where
  pub id : WorkflowId
  pub description : String
  pub steps : List (StepDefinition Float)
  pub tags : List (String × String)
  pub created_at : ℕ
  pub updated_at : ℕ
  pub timeout : ℤ

pub record RunInput (Any : Type 0) : Type 0 where
  pub workflow : WorkflowId
  pub payload : List (String × Any)
  pub labels : List (String × String)
  pub parent_run_id : String

pub record StepRun (Any : Type 0) : Type 0 where
  pub step_id : String
  pub state : StepState
  pub attempt : ℤ
  pub started_at : Option ℕ
  pub finished_at : Option ℕ
  pub output : List (String × Any)
  pub error : String
  pub last_err_type : String
  pub metadata : List (String × String)

pub record Run (Any : Type 0) : Type 0 where
  pub id : String
  pub namespace : String
  pub workflow : WorkflowId
  pub state : RunState
  pub input : RunInput Any
  pub steps : List (StepRun Any)
  pub attempt : ℤ
  pub created_at : ℕ
  pub started_at : Option ℕ
  pub finished_at : Option ℕ
  pub error : String
  pub labels : List (String × String)
  pub parent_run_id : String
