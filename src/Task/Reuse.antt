-- ===== src/Task/Reuse.antt =====
-- How two tasks come to share an ID in api/server/services/services_task.go: after a removal, and when
-- two goroutines track at once.
use libstorage.Base.{
  ℕ, suc, ◌<◌, ◌≡◌, ◌≢◌, Option, some, arith, nat_eq, length, length-append, ◌∙◌, Option-cases, inl,
  inr,
}
use libstorage.Base.Dict.{get, put, delete, get-put, get-delete, length-delete}
use libstorage.Task.{TaskRun, TaskService, track_read, track_store, task_inspect, task_remove}
use libstorage.Task.Dense.{IsDense}

module _ {S A Schema : Type 0} (svc : TaskService S A Schema) (d : IsDense svc) where
  address : (k : ℕ) → k < length svc.tasks → (a : ℕ) × (get svc.tasks k ≡ some a)
  address k lt = elim (Option-cases (get svc.tasks k)) [
    | inl e ↦ absurd (ground (arith, d.dense k))
    | inr (a, e) ↦ (a, e)
  ]

  read-remove :
      (i : ℕ) → i < length svc.tasks → suc (track_read (task_remove i svc)) ≡ length svc.tasks
  unfolding track_read task_remove
  read-remove i lt = let (a, e) = address i lt in length-delete i a svc.tasks d.distinct e

  -- After the removal of any task but the last, the next task is tracked under the ID of the last
  -- one: a task that is still there, and that can no longer be inspected afterwards.
  track_after_remove_reuses :
      (i now : ℕ) (run : TaskRun S A) (schema : Option Schema)
      → suc i < length svc.tasks
      → let removed = task_remove i svc in
        let id = track_read removed in
        (a : ℕ) × (task_inspect id removed ≡ some a)
        × (task_inspect id (track_store id now run schema removed) ≡ some (length svc.heap))
        × (a < length svc.heap)
  unfolding task_inspect track_read task_remove track_store
  track_after_remove_reuses i now run schema lt =
      let id = track_read (task_remove i svc) in
      let size : suc id ≡ length svc.tasks = read-remove i (omega arith) in
      let (a, e) = address id (omega arith) in
      (
        a,
        ground (arith, get-delete svc.tasks i id, size, e),
        ground (arith, get-put (delete i svc.tasks) id id (length svc.heap)),
        d.on_heap id a e,
      )

  size-heap :
      (now : ℕ) (run : TaskRun S A) (schema : Option Schema)
      → length (track_store (track_read svc) now run schema svc).heap ≡ suc (length svc.heap)
  unfolding track_store
  size-heap now run schema = length-append svc.heap _ ∙ omega arith

  -- Two tasks that are tracked at once, so that both read the number of tasks before either is
  -- stored, have one ID, and the task that is stored first is under no ID.
  racing_tracks_collide :
      (now : ℕ) (run run' : TaskRun S A) (schema schema' : Option Schema) (j : ℕ)
      → let id = track_read svc in
        let both = track_store id now run' schema' (track_store id now run schema svc) in
        (task_inspect id both ≡ some (suc (length svc.heap)))
        × (task_inspect j both ≢ some (length svc.heap))
  unfolding task_inspect track_read track_store
  racing_tracks_collide now run run' schema schema' j =
      let n = length svc.tasks in
      let a = length svc.heap in
      (
        ground (
          arith,
          get-put (put n a svc.tasks) n n
              (length (track_store (length svc.tasks) now run schema svc).heap),
          size-heap now run schema,
        ),
        λ e. ground (
          arith,
          get-put (put n a svc.tasks) n j
              (length (track_store (length svc.tasks) now run schema svc).heap),
          get-put svc.tasks n j a,
          size-heap now run schema,
          d.on_heap j a,
        ),
      )
