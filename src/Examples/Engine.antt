-- ===== src/Examples/Engine.antt =====
-- Runs of the engine.
use tempest.Base.{
  ℕ, ◌+◌, String, ◌≡◌, refl, inr, false, none, some, List, [], ◌∷◌, pos, string_eq, nat_eq,
}
use tempest.Base.GoMap.{lookup, insert}
use tempest.Types.{succeeded, cancelled, running, step_running, step_pending, is_terminal}
use tempest.Types.Records.{WorkflowId, WorkflowDefinition, StepDefinition, StepRun, Run}
use tempest.Types.Events.{QueueItem}
use tempest.StateMachine.{can_transition, new as machine}
use tempest.MemStore.Keys.{run_key, queue_key}
use tempest.MemStore.Runs.{get_run}
use tempest.MemStore.Queue.{QueueLease}
use tempest.Engine.{World}
use tempest.Engine.Submit.{cancel}
use tempest.Engine.Leases.{finish_step, finished_step}
use tempest.Engine.Queueing.{IsQueued, ready_steps-IsQueued}
use tempest.Workflow.{ready_steps}
use mathlib.Core.List.{Memᴰ}
use tempest.Engine.Races.{ended_run_succeeds}

abbrev wf : WorkflowId
wf = record { namespace = "ns"; name = "wf"; version = pos 1 }

abbrev only_def : WorkflowDefinition ℕ
only_def = record {
  id = wf;
  description = "";
  steps = [];
  tags = [];
  created_at = 0;
  updated_at = 0;
  timeout = pos 0;
}

abbrev running_step : StepRun ℕ
running_step = record {
  step_id = "a";
  state = step_running;
  attempt = pos 0;
  started_at = some 2;
  finished_at = none;
  output = [];
  error = "";
  last_err_type = "";
  metadata = [];
}

abbrev one_step : Run ℕ
one_step = record {
  id = "r1";
  namespace = "ns";
  workflow = wf;
  state = running;
  input = record { workflow = wf; payload = []; labels = []; parent_run_id = "" };
  steps = running_step ∷ [];
  attempt = pos 0;
  created_at = 1;
  started_at = some 2;
  finished_at = none;
  error = "";
  labels = [];
  parent_run_id = "";
}

abbrev only_item : QueueItem
only_item = record {
  run_id = "r1";
  namespace = "ns";
  step_id = "a";
  enqueued_at = 1;
  visible_at = 9;
  attempt = pos 1;
}

abbrev only_lease : QueueLease
only_lease = record { item = only_item; token = "lease" }

-- The handler of the run's only step is at work.
abbrev at_work : World ℕ ℕ
at_work = record {
  store = record {
    definitions = [];
    runs = ("ns/r1", one_step) ∷ [];
    queue = ("ns/r1/a", only_item) ∷ [];
    events = [];
    webhooks = [];
    deliveries = [];
    tokens = [];
    token_hash = [];
  };
  emitted = [];
}

abbrev no_text : String → ℕ
no_text s = 0

abbrev clock : ℕ → ℕ
clock n = 7 + n

-- The run was cancelled at time 5, while the handler was at work.
abbrev cancelled_world : World ℕ ℕ
unfolding cancel
cancelled_world = (cancel no_text at_work "ns" "r1" 5).1

abbrev cancelled_run : Run ℕ
cancelled_run = record one_step { state = cancelled; finished_at = some 5 }

ended_run_succeeds_example :
    (can_transition (machine {H = ℕ}) cancelled succeeded ≡ false)
    × ((r' : Run ℕ) × (get_run
            (finish_step no_text cancelled_world one_step only_def only_lease [] clock).1.store
            "ns"
            "r1"
          ≡ inr r')
        × (r'.state ≡ succeeded))
unfolding lookup cancelled_world get_run run_key is_terminal tempest.MemStore.Runs.update_run_state
    tempest.MemStore.Keys.queue_key tempest.Engine.change_step tempest.Engine.all_done insert
ended_run_succeeds_example =
    ended_run_succeeds machine no_text cancelled_world one_step cancelled_run only_def only_lease []
      clock only_item (finished_step 7 [] running_step) (finished_step 7 [] running_step ∷ []) refl
      refl refl refl refl

abbrev step_def : String → List String → StepDefinition ℕ
step_def id deps = record {
  id = id;
  handler = "h";
  depends_on = deps;
  timeout = pos 0;
  retry = record {
    max_attempts = pos 1;
    initial_interval = pos 0;
    max_interval = pos 0;
    multiplier = 1;
    max_elapsed = pos 0;
  };
  input_schema = "";
  output_schema = "";
  is_gateway = false;
  continue_on_err = false;
}

abbrev chain_def : WorkflowDefinition ℕ
chain_def = record only_def { steps = step_def "a" [] ∷ step_def "b" ("a" ∷ []) ∷ [] }

abbrev next_step : StepRun ℕ
next_step = record running_step { step_id = "b"; state = step_pending; started_at = none }

abbrev chain_run : Run ℕ
chain_run = record one_step { steps = running_step ∷ next_step ∷ [] }

abbrev chain_world : World ℕ ℕ
chain_world = record at_work { store = record at_work.store { runs = ("ns/r1", chain_run) ∷ [] } }

ready_steps-IsQueued_example :
    ((finish_step no_text chain_world chain_run chain_def only_lease [] clock).0 ≡ none)
    × IsQueued
        (finish_step no_text chain_world chain_run chain_def only_lease [] clock).1
        (queue_key "ns" "r1" "b")
unfolding lookup tempest.MemStore.Keys.queue_key tempest.Engine.change_step tempest.Engine.all_done
    ready_steps
ready_steps-IsQueued_example =
    ready_steps-IsQueued no_text chain_world chain_run chain_def only_lease [] clock only_item
      (finished_step 7 [] running_step) (finished_step 7 [] running_step ∷ next_step ∷ []) next_step
      refl refl refl (Memᴰ.head refl)
