-- ===== src/Task/Queue.antt =====
-- The queue of a storage service of api/server/services/services_storage.go: an unbuffered channel, to
-- which a goroutine for each task sends it, and one goroutine that receives a task and executes it.
-- A task that is sent waits until it is received; the sends that wait are received in any order. A
-- task is executed in one step, from its start time to its completion, since the tasks of other services
-- act on another world.
use libstorage.Base.{ℕ, List, [], ◌∷◌, ◌++◌, ◌≡◌, Option, none, some}
use libstorage.Types.Errors.{Error}
use libstorage.Task.{Task, exec_task}

pub record Queue (S A Schema : Type 0) : Type 0 where
  pub waiting : List (Task S A Schema)
  pub running : Option (Task S A Schema)
  pub finished : List (Task S A Schema)
  pub world : S

module _ {S A Schema : Type 0} where
  -- Init: the goroutine that executes has nothing to do.
  abbrev pub empty_queue : S → Queue S A Schema
  empty_queue s = record { waiting = []; running = none; finished = []; world = s }

  -- TaskExecute, with the task that newStorageServiceTask has tracked.
  abbrev pub submit : Task S A Schema → Queue S A Schema → Queue S A Schema
  submit t q = record q { waiting = t ∷ q.waiting }

  -- The goroutine receives `t`, which stands among the waiting tasks between `before` and `behind`.
  abbrev pub receive :
      List (Task S A Schema)
      → Task S A Schema
      → List (Task S A Schema)
      → Queue S A Schema
      → Queue S A Schema
  receive before t behind q = record q { waiting = before ++ behind; running = some t }

  abbrev pub finish :
      (Schema → A → Option Error) → ℕ → ℕ → Task S A Schema → Queue S A Schema → Queue S A Schema
  finish validate now later t q =
      let done = exec_task validate now later t q.world in
      record q { running = none; finished = q.finished ++ done.0 ∷ []; world = done.1 }

-- `Reached s ts q`: the service starts in the world `s`, the tasks `ts` are submitted, the last one
-- first, and the queue is then `q`.
pub data Reached {S A Schema : Type 0} (validate : Schema → A → Option Error) (s : S)
    : List (Task S A Schema) → Queue S A Schema → Type 0 where
  begun : Reached validate s [] (empty_queue s)
  submitted :
      {ts : List (Task S A Schema)} {q : Queue S A Schema}
      → (t : Task S A Schema) → Reached validate s ts q
      → Reached validate s (t ∷ ts) (submit t q)
  received :
      {ts : List (Task S A Schema)} {q : Queue S A Schema}
      → (before : List (Task S A Schema)) (t : Task S A Schema) (behind : List (Task S A Schema))
      → q.waiting ≡ before ++ t ∷ behind
      → q.running ≡ none
      → Reached validate s ts q
      → Reached validate s ts (receive before t behind q)
  finished :
      {ts : List (Task S A Schema)} {q : Queue S A Schema}
      → (now later : ℕ) (t : Task S A Schema) → q.running ≡ some t
      → Reached validate s ts q
      → Reached validate s ts (finish validate now later t q)
