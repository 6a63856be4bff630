-- ===== src/Task/Tests.antt =====
-- Runs of the task service of api/server/services/services_task.go.
use libstorage.Base.{
  ℕ, suc, ◌⊎◌, ◌≡◌, ◌<◌, [], true, Option, none, some, codes, ok, if◌then◌else◌, nat_eq, length,
  get_elem?, arith, ltb,
}
use libstorage.Base.Dict.{get, put}
use libstorage.Types.Errors.{Error, goof}
use libstorage.Task.{
  Task, TaskRun, TaskService, storage, exec_task, failed, new_task, track_read, track_store,
  task_inspect,
}
use libstorage.Task.Execution.{Succeeded, Failed, exec_task_ends}
use libstorage.Task.Dense.{IsDense, track_store_fresh}
use mathlib.Core.List.{Perm}
use libstorage.Base.{List, ◌∷◌, refl}
use libstorage.Task.Queue.{Queue, Reached, begun, submitted, received, submit, receive, empty_queue}
use libstorage.Task.Serial.{
  Run, IsSerial, Onward, in_sequence, tasks_of, reached-IsSerial, reached-drains,
}

-- The effect is a counter, a result is a number, and a schema is an upper limit.
abbrev limit : ℕ → ℕ → Option Error
limit schema r = if ltb schema r then some (goof (codes "too large")) else none

abbrev count_up : TaskRun ℕ ℕ
count_up = storage (λ s. (ok (some s), suc s))

abbrev no_tasks : TaskService ℕ ℕ ℕ
no_tasks = record { heap = []; tasks = []; result_schema_validation_enabled = true }

no_tasks-IsDense : IsDense no_tasks
no_tasks-IsDense = record {
  distinct = tt;
  dense = λ k. unfold get in ground arith;
  on_heap = λ k a e. absurd (unfold get in ground (arith, e));
}

abbrev one_task : TaskService ℕ ℕ ℕ
one_task = track_store 0 5 count_up (some 3) no_tasks

one_task-IsDense : IsDense one_task
one_task-IsDense =
    (track_store_fresh 5 count_up (some 3) no_tasks no_tasks-IsDense 0 0
      (unfold track_read in refl)).4

one_read : track_read one_task ≡ 1
unfolding track_read track_store put
one_read = refl

abbrev two_tasks : TaskService ℕ ℕ ℕ
two_tasks = track_store 1 6 count_up none one_task

two_tasks-IsDense : IsDense two_tasks
two_tasks-IsDense = (track_store_fresh 6 count_up none one_task one_task-IsDense 1 0 one_read).4

abbrev the_task : Task ℕ ℕ ℕ
the_task = new_task 0 5 count_up (some 3) true

exec_task_ends_example :
    let done = exec_task limit 7 8 the_task 4 in
    (done.0.done ≡ true) × (Succeeded limit the_task 4 done ⊎ Failed limit the_task 4 done)
exec_task_ends_example = exec_task_ends limit 7 8 4 the_task

-- The result is 4, and the limit 3.
too_large : (exec_task limit 7 8 the_task 4).0.state ≡ failed
unfolding exec_task
too_large = refl

track_store_fresh_example :
    let svc' = track_store 1 6 count_up none one_task in
    (task_inspect 1 one_task ≡ none)
    × (task_inspect 1 svc' ≡ some (length one_task.heap))
    × (get_elem? svc'.heap (length one_task.heap)
        ≡ some (new_task 1 6 count_up none one_task.result_schema_validation_enabled))
    × (task_inspect 0 svc' ≡ task_inspect 0 one_task)
    × IsDense svc'
track_store_fresh_example = track_store_fresh 6 count_up none one_task one_task-IsDense 1 0 one_read

two_tasks_two : 1 < length two_tasks.tasks
unfolding track_store put
two_tasks_two = omega arith

abbrev other_task : Task ℕ ℕ ℕ
other_task = new_task 1 6 count_up none true

-- The task that was submitted last is received first.
abbrev last_first : Queue ℕ ℕ ℕ
last_first =
    receive [] other_task (the_task ∷ []) (submit other_task (submit the_task (empty_queue 4)))

last_first-Reached : Reached limit 4 (other_task ∷ the_task ∷ []) last_first
last_first-Reached =
    received [] other_task (the_task ∷ []) refl refl
      (submitted other_task (submitted the_task begun))

reached-IsSerial_example : IsSerial limit 4 (other_task ∷ the_task ∷ []) last_first
reached-IsSerial_example =
    reached-IsSerial limit 4 (other_task ∷ the_task ∷ []) last_first last_first-Reached

reached-drains_example :
    (q' : Queue ℕ ℕ ℕ) × Onward limit last_first q'
    × (q'.waiting ≡ [])
    × (q'.running ≡ none)
    × (runs : List (Run ℕ ℕ ℕ)) × (in_sequence limit runs 4 ≡ (q'.finished, q'.world))
    × Perm (other_task ∷ the_task ∷ []) (tasks_of limit runs)
reached-drains_example =
    reached-drains limit 4 (other_task ∷ the_task ∷ []) last_first last_first-Reached
