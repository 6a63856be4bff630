-- ===== src/Router/Batch/Replies.antt =====
-- What the handlers over all services collect: `volumes` of
-- api/server/router/volume/volume_routes.go and `snapshots` of
-- api/server/router/snapshot/snapshot_routes.go.
use libstorage.Base.{
  ◌≡◌, refl, ◌∙◌, ap, ◌++◌, [], ◌∷◌, Bool, true, false, Option, none, some, List, Text, Result, ok,
  err, arith, text_eq, text_beq_iff,
}
use libstorage.Base.Dict.{Dict, get, put, get-put, Distinct}
use libstorage.Types.Errors.{Error, Completed, batch_process}
use libstorage.Router.Batch.{collect}

module _ {A : Type 0} where
  -- What a task's end contributes to the reply under its service's name.
  abbrev pub contribution : Option (Result Error A) → Option A → Option A
  contribution none before = before
  contribution (some (ok a)) before = some a
  contribution (some (err e)) before = before

  abbrev pub all_ok : List (Text × Result Error A) → Bool
  all_ok [] = true
  all_ok ((k, ok a) ∷ tasks) = all_ok tasks
  all_ok ((k, err e) ∷ tasks) = false

ok_injective : {A : Type 0} {a b : A} → ◌≡◌ {A = Result Error A} (ok a) (ok b) → a ≡ b
ok_injective h = cc

module _ {A : Type 0} (completed : Dict Text A → Completed) where
  get-collect :
      (tasks : List (Text × Result Error A)) (reply : Dict Text A) (m : Dict Text A) (k : Text)
      → Distinct tasks
      → collect completed tasks reply ≡ ok m
      → get m k ≡ contribution (get tasks k) (get reply k)
  unfolding collect get
  get-collect [] reply m k d h = ground arith
  get-collect ((j, ok a) ∷ tasks) reply m k (fresh, d) h =
      get-collect tasks (put j a reply) m k d h
      ∙ ground (arith, get-put reply j k a, text_beq_iff j k, fresh)
  get-collect ((j, err e) ∷ tasks) reply m k d h = cc

  collect_succeeds :
      (tasks : List (Text × Result Error A)) (reply : Dict Text A)
      → all_ok tasks ≡ true
      → (m : Dict Text A) × (collect completed tasks reply ≡ ok m)
  unfolding collect
  collect_succeeds [] reply h = (reply, refl)
  collect_succeeds ((k, ok a) ∷ tasks) reply h = collect_succeeds tasks (put k a reply) h
  collect_succeeds ((k, err e) ∷ tasks) reply h = cc

  -- The reply to a request over all services, in whatever order the tasks are looked at: if no
  -- task failed the reply has under the name of each service what its task ended with, and nothing
  -- else.
  pub collect-all_ok :
      (tasks : List (Text × Result Error A)) (k : Text)
      → Distinct tasks
      → all_ok tasks ≡ true
      → (m : Dict Text A) × (collect completed tasks [] ≡ ok m)
        × (get m k ≡ contribution (get tasks k) none)
  unfolding get
  collect-all_ok tasks k d fine =
      let (m, e) = collect_succeeds tasks [] fine in (m, e, get-collect tasks [] m k d e)

  collect-append :
      (before : List (Text × Result Error A)) (tasks : List (Text × Result Error A))
      (reply m : Dict Text A)
      → collect completed before reply ≡ ok m
      → collect completed (before ++ tasks) reply ≡ collect completed tasks m
  unfolding collect
  collect-append [] tasks reply m h = ap (collect completed tasks) (ok_injective h)
  collect-append ((k, ok a) ∷ before) tasks reply m h =
      collect-append before tasks (put k a reply) m h
  collect-append ((k, err e) ∷ before) tasks reply m h = cc

  -- Where the tasks `before`, which are under different names, succeed, and the task that is looked at next has failed with `e`: the
  -- reply is a batch error with `e`, whatever the tasks behind it end with, and it has what was collected
  -- before it: under each name what the task of `before` with this name ended with, and nothing else.
  pub collect_failed :
      (before : List (Text × Result Error A)) (k : Text) (e : Error)
      (behind : List (Text × Result Error A))
      → Distinct before
      → all_ok before ≡ true
      → (reply : Dict Text A) × (collect completed (before ++ (k, err e) ∷ behind) []
          ≡ err (batch_process (completed reply) e))
        × ((j : Text) → get reply j ≡ contribution (get before j) none)
  collect_failed before k e behind d fine =
      let (m, done) = collect_succeeds before [] fine in
      (
        m,
        collect-append before ((k, err e) ∷ behind) [] m done ∙ (unfold collect in refl),
        λ j. get-collect before [] m j d done ∙ (unfold get in refl),
      )
