-- ===== src/Task.antt =====
-- The task service of api/server/services/services_task.go: tasks, how one is executed, and the
-- service's map of tasks. A task is shared by its pointer, so the tasks stand on a heap, and the
-- map holds addresses.
pub mod Execution
pub mod Dense
pub mod Reuse
pub mod Queue
pub mod Serial
mod Tests
use libstorage.Base.{
  ℕ, zero, suc, ◌+◌, List, [], ◌∷◌, ◌++◌, Bool, true, false, not, Option, none, some, Text, codes,
  Result, ok, err, Exec, if◌then◌else◌, nat_eq, length, get_elem?,
}
use libstorage.Base.Dict.{Dict, get, put, delete}
use libstorage.Types.Errors.{Error, goof}

-- `unset` is the empty text that a new task has; TaskStateQueued is never assigned.
pub data TaskState : Type 0 where
  unset running success failed : TaskState

-- What a task runs: a function with its storage service, a function, or neither.
pub data TaskRun (S A : Type 0) : Type 0 where
  storage : Exec S Error (Option A) → TaskRun S A
  generic : Exec S Error (Option A) → TaskRun S A
  invalid : TaskRun S A

-- A `task` and the types.Task in it; a result and an error that are nil are `none`, and `done` says
-- that the channel is closed.
pub record Task (S A Schema : Type 0) : Type 0 where
  pub id : ℕ
  pub queue_time : ℕ
  pub start_time : ℕ
  pub complete_time : ℕ
  pub state : TaskState
  pub result : Option A
  pub error : Option Error
  pub run : TaskRun S A
  pub result_schema : Option Schema
  pub validation_enabled : Bool
  pub done : Bool

pub record TaskService (S A Schema : Type 0) : Type 0 where
  pub heap : List (Task S A Schema)
  pub tasks : Dict ℕ ℕ
  pub result_schema_validation_enabled : Bool

abbrev pub final_state : Option Error → TaskState
final_state none = success
final_state (some e) = failed

module _ {S A Schema : Type 0} where
  abbrev started : ℕ → Task S A Schema → Task S A Schema
  started now t = record t { state = running; start_time = now }

  -- The deferred function of execTask.
  abbrev completed : ℕ → Task S A Schema → Task S A Schema
  completed now t = record t { complete_time = now; state = final_state t.error; done = true }

  abbrev pub ran : Task S A Schema → Result Error (Option A) × S → Task S A Schema × S
  ran t (ok r, s) = (record t { result = r; error = none }, s)
  ran t (err e, s) = (record t { result = none; error = some e }, s)

  abbrev pub run_task : Task S A Schema → TaskRun S A → S → Task S A Schema × S
  run_task t (storage f) s = ran t (f s)
  run_task t (generic f) s = ran t (f s)
  run_task t invalid s = ran t (err (goof (codes "invalid task")), s)

  -- The checks of the result against the schema; `validate` stands for json.Marshal and
  -- schema.Validate, and gives their error.
  abbrev checked :
      (Schema → A → Option Error)
      → Task S A Schema
      → Option Error
      → Option A
      → Option Schema
      → Bool
      → Task S A Schema
  checked validate t none (some r) (some schema) true = record t { error = validate schema r }
  checked validate t e r schema enabled = t

  abbrev check_result : (Schema → A → Option Error) → Task S A Schema → Task S A Schema
  check_result validate t = checked validate t t.error t.result t.result_schema t.validation_enabled

  -- execTask, from the time `now` to the time `later`
  unfoldable pub exec_task :
      (Schema → A → Option Error) → ℕ → ℕ → Task S A Schema → S → Task S A Schema × S
  exec_task validate now later t s =
      let (t', s') = run_task (started now t) t.run s in
      (completed later (check_result validate t'), s')

  -- The new task of taskTrack, with what newTask and its callers fill in.
  abbrev new_task : ℕ → ℕ → TaskRun S A → Option Schema → Bool → Task S A Schema
  new_task id now run schema enabled = record {
    id = id;
    queue_time = now;
    start_time = 0;
    complete_time = 0;
    state = unset;
    result = none;
    error = none;
    run = run;
    result_schema = schema;
    validation_enabled = enabled;
    done = false;
  }

  -- taskTrack takes its lock twice: it reads the number of tasks under one lock, and stores the
  -- task under that number under another.
  unfoldable pub track_read : TaskService S A Schema → ℕ
  track_read svc = length svc.tasks

  unfoldable pub track_store :
      ℕ → ℕ → TaskRun S A → Option Schema → TaskService S A Schema → TaskService S A Schema
  track_store task_id now run schema svc = record svc {
    heap = svc.heap ++ new_task task_id now run schema svc.result_schema_validation_enabled ∷ [];
    tasks = put task_id (length svc.heap) svc.tasks;
  }

  -- TaskInspect: the address of the task, or nil.
  unfoldable pub task_inspect : ℕ → TaskService S A Schema → Option ℕ
  task_inspect id svc = get svc.tasks id

  -- The end of taskRemoveAfter, for the ID of the task that was waited for.
  unfoldable pub task_remove : ℕ → TaskService S A Schema → TaskService S A Schema
  task_remove id svc = record svc { tasks = delete id svc.tasks }
