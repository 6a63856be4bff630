-- ===== src/Task/Execution.antt =====
-- How a task of api/server/services/services_task.go ends.
use libstorage.Base.{
  ℕ, ◌≡◌, ◌⊎◌, inl, inr, Option-cases, refl, Bool, true, false, Option, none, some, Result, ok, err,
  codes,
}
use libstorage.Types.Errors.{Error, goof}
use libstorage.Task.{
  Task, TaskRun, storage, generic, invalid, exec_task, run_task, ran, success, failed,
}

-- What the run of a task gives, before any check.
abbrev pub outcome : {S A : Type 0} → TaskRun S A → S → Result Error (Option A) × S
outcome (storage f) s = f s
outcome (generic f) s = f s
outcome invalid s = (err (goof (codes "invalid task")), s)

module _ {S A Schema : Type 0} (validate : Schema → A → Option Error) (t : Task S A Schema)
    (s : S) where
  -- A result that is to be validated is valid.
  abbrev pub Passes : Option A → Type 0
  Passes r =
      (x : A) (schema : Schema)
      → r ≡ some x
      → t.result_schema ≡ some schema
      → t.validation_enabled ≡ true
      → validate schema x ≡ none

  abbrev pub Succeeded : Task S A Schema × S → Type 0
  Succeeded (t', s') =
      (t'.state ≡ success)
      × (t'.error ≡ none)
      × (outcome t.run s ≡ (ok t'.result, s'))
      × Passes t'.result

  abbrev pub IsRefused : Option A → Error → Type 0
  IsRefused r e =
      (x : A) × (schema : Schema) × (r ≡ some x)
      × (t.result_schema ≡ some schema)
      × (t.validation_enabled ≡ true)
      × (validate schema x ≡ some e)

  abbrev pub Failed : Task S A Schema × S → Type 0
  Failed (t', s') =
      (t'.state ≡ failed)
      × (e : Error) × (t'.error ≡ some e)
      × (((t'.result ≡ none) × (outcome t.run s ≡ (err e, s')))
          ⊎ ((outcome t.run s ≡ (ok t'.result, s')) × IsRefused t'.result e))

module _ {S A Schema : Type 0} (validate : Schema → A → Option Error) (now later : ℕ) (s : S) where
  abbrev Ends : Task S A Schema → Type 0
  Ends t =
      let done = exec_task validate now later t s in
      Succeeded validate t s done ⊎ Failed validate t s done

  run_task-outcome :
      (t : Task S A Schema) (run : TaskRun S A) → run_task t run s ≡ ran t (outcome run s)
  run_task-outcome t (storage f) = refl
  run_task-outcome t (generic f) = refl
  run_task-outcome t invalid = refl

  exec_task-Ends :
      (t : Task S A Schema) (run : TaskRun S A) (r : Result Error (Option A)) (s' : S)
      (schema : Option Schema) (enabled : Bool)
      → outcome run s ≡ (r, s')
      → Ends (record t { run = run; result_schema = schema; validation_enabled = enabled })
  unfolding exec_task
  exec_task-Ends t run (err x) s' schema enabled e =
      rw (run_task-outcome _ run, e) (inr (refl, x, refl, inl (refl, refl)))
  exec_task-Ends t run (ok none) s' schema enabled e =
      rw (run_task-outcome _ run, e) (inl (refl, refl, refl, λ y sc a b c. cc))
  exec_task-Ends t run (ok (some x)) s' none enabled e =
      rw (run_task-outcome _ run, e) (inl (refl, refl, refl, λ y sc a b c. cc))
  exec_task-Ends t run (ok (some x)) s' (some schema) false e =
      rw (run_task-outcome _ run, e) (inl (refl, refl, refl, λ y sc a b c. cc))
  exec_task-Ends t run (ok (some x)) s' (some schema) true e =
      elim (Option-cases (validate schema x)) [
        | inl valid ↦
            rw (run_task-outcome _ run, e, valid) (inl (refl, refl, refl, λ y sc a b c. cc))
        | inr (why, refused) ↦
            rw (run_task-outcome _ run, e, refused)
              (inr (refl, why, refl, inr (refl, (x, schema, refl, refl, refl, refused))))
      ]

  -- However a task is executed: it ends with its channel closed, and either with success, where its run has given its result without an error, and
  -- the result, if there is one, a schema is given and the validation is enabled, is valid; or as
  -- failed, with the error of its run and no result, or with the error of the validation of the result.
  pub exec_task_ends :
      (t : Task S A Schema)
      → let done = exec_task validate now later t s in
        (done.0.done ≡ true) × (Succeeded validate t s done ⊎ Failed validate t s done)
  exec_task_ends t = (
    unfold exec_task in refl,
    exec_task-Ends t t.run (outcome t.run s).0 (outcome t.run s).1 t.result_schema
        t.validation_enabled refl,
  )
