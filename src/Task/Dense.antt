-- ===== src/Task/Dense.antt =====
-- The IDs that taskTrack of api/server/services/services_task.go gives, as long as no task has been
-- removed.
use libstorage.Base.{
  ℕ, suc, ◌<◌, ◌≡◌, sym, Option, none, some, arith, ltb, if◌then◌else◌, nat_eq, ◌==◌, length,
  length-append, get_elem?, get_elem?-length, ◌∙◌,
}
use libstorage.Base.Dict.{get, get-put, length-put, Distinct, put-Distinct, is_some}
use libstorage.Task.{TaskRun, TaskService, new_task, track_store, track_read, task_inspect}

module _ {S A Schema : Type 0} where
  -- The IDs in the map are the numbers below its size, and its addresses are on the heap.
  pub record IsDense (svc : TaskService S A Schema) : Type 0 where
    pub distinct : Distinct svc.tasks
    pub dense : (k : ℕ) → is_some (get svc.tasks k) ≡ ltb k (length svc.tasks)
    pub on_heap : (k a : ℕ) → get svc.tasks k ≡ some a → a < length svc.heap

  pub next_is_fresh :
      (svc : TaskService S A Schema) → IsDense svc → get svc.tasks (length svc.tasks) ≡ none
  next_is_fresh svc d = ground (arith, d.dense (length svc.tasks))

  module _ (now : ℕ) (run : TaskRun S A) (schema : Option Schema) (svc : TaskService S A Schema)
      (d : IsDense svc) where
    size-track :
        length (track_store (track_read svc) now run schema svc).tasks ≡ suc (length svc.tasks)
    unfolding track_read track_store
    size-track = length-put (length svc.tasks) (length svc.heap) svc.tasks (next_is_fresh svc d)

    heap-track :
        length (track_store (track_read svc) now run schema svc).heap ≡ suc (length svc.heap)
    unfolding track_read track_store
    heap-track = length-append svc.heap _ ∙ omega arith

    track-IsDense : IsDense (track_store (track_read svc) now run schema svc)
    track-IsDense = record {
      distinct =
          unfold track_read track_store in
          put-Distinct (length svc.tasks) (length svc.heap) svc.tasks d.distinct;
      dense = λ k. rw size-track (
          unfold track_read track_store in
          ground (arith, get-put svc.tasks (length svc.tasks) k (length svc.heap), d.dense k));
      on_heap = λ k a e. rw heap-track (on_heap_at k a e);
    }
      where
        on_heap_at :
            (k a : ℕ)
            → get (track_store (track_read svc) now run schema svc).tasks k ≡ some a
            → a < suc (length svc.heap)
        on_heap_at k a e =
            unfold track_read track_store in
            ground
              (arith, e, get-put svc.tasks (length svc.tasks) k (length svc.heap), d.on_heap k a)

    track_fresh :
        (j : ℕ)
        → let id = track_read svc in
          let svc' = track_store (track_read svc) now run schema svc in
          (task_inspect id svc ≡ none)
          × (task_inspect id svc' ≡ some (length svc.heap))
          × (get_elem? svc'.heap (length svc.heap)
              ≡ some (new_task id now run schema svc.result_schema_validation_enabled))
          × (task_inspect j svc' ≡ (if id == j then some (length svc.heap) else task_inspect j svc))
          × IsDense svc'
    unfolding task_inspect track_read track_store
    track_fresh j = (
      next_is_fresh svc d,
      ground (arith, get-put svc.tasks (length svc.tasks) (length svc.tasks) (length svc.heap)),
      get_elem?-length svc.heap _,
      get-put svc.tasks (length svc.tasks) j (length svc.heap),
      track-IsDense,
    )

    -- Where no task has been removed, and taskTrack, when it takes its lock for the second time, still finds the number of tasks `id` that it has
    -- read under the first: it has an ID under which there is no task, stores the new task under it, keeps
    -- all other IDs, and leaves the IDs without a gap.
    pub track_store_fresh :
        (id j : ℕ)
        → track_read svc ≡ id
        → let svc' = track_store id now run schema svc in
          (task_inspect id svc ≡ none)
          × (task_inspect id svc' ≡ some (length svc.heap))
          × (get_elem? svc'.heap (length svc.heap)
              ≡ some (new_task id now run schema svc.result_schema_validation_enabled))
          × (task_inspect j svc' ≡ (if id == j then some (length svc.heap) else task_inspect j svc))
          × IsDense svc'
    track_store_fresh id j e = rw (sym e) (track_fresh j)
