-- ===== src/Task/Serial.antt =====
-- What a storage service does with its tasks, seen from outside: api/server/services/services_storage.go.
use mathlib.Core.List.{Perm, perm_middle}
use mathlib.Core.List.Perm
use libstorage.Base.{
  ℕ, List, [], ◌∷◌, ◌++◌, ◌≡◌, refl, ◌∙◌, sym, ap, Option, none, some, append_assoc, append-nil,
}
use libstorage.Types.Errors.{Error}
use libstorage.Task.{Task, exec_task}
use libstorage.Task.Queue.{Queue, Reached, begun, submitted, received, finished, receive, finish}

-- A run of a task: the task, and the times of its start and of its end.
abbrev pub Run : Type 0 → Type 0 → Type 0 → Type 0
Run S A Schema = Task S A Schema × (ℕ × ℕ)

module _ {S A Schema : Type 0} (validate : Schema → A → Option Error) where
  -- The runs one after the other: the tasks as they end, and the world.
  unfoldable pub in_sequence : List (Run S A Schema) → S → List (Task S A Schema) × S
  in_sequence [] s = ([], s)
  in_sequence ((t, (now, later)) ∷ runs) s =
      let done = exec_task validate now later t s in
      let rest = in_sequence runs done.1 in (done.0 ∷ rest.0, rest.1)

  abbrev pub tasks_of : List (Run S A Schema) → List (Task S A Schema)
  tasks_of [] = []
  tasks_of ((t, times) ∷ runs) = t ∷ tasks_of runs

  abbrev pub running_of : Option (Task S A Schema) → List (Task S A Schema)
  running_of none = []
  running_of (some t) = t ∷ []

  in_sequence-append :
      (runs : List (Run S A Schema)) (t : Task S A Schema) (now later : ℕ) (s : S)
      → let before = in_sequence runs s in
        let done = exec_task validate now later t before.1 in
        in_sequence (runs ++ (t, (now, later)) ∷ []) s ≡ (before.0 ++ done.0 ∷ [], done.1)
  unfolding in_sequence
  in_sequence-append [] t now later s = refl
  in_sequence-append ((u, (n, l)) ∷ runs) t now later s =
      rw (in_sequence-append runs t now later (exec_task validate n l u s).1) refl

  tasks_of-append :
      (runs : List (Run S A Schema)) (t : Task S A Schema) (times : ℕ × ℕ)
      → tasks_of (runs ++ (t, times) ∷ []) ≡ tasks_of runs ++ t ∷ []
  tasks_of-append [] t times = refl
  tasks_of-append ((u, us) ∷ runs) t times = ap (λ ts. u ∷ ts) (tasks_of-append runs t times)

  nothing_run : (s : S) → in_sequence [] s ≡ ([], s)
  unfolding in_sequence
  nothing_run s = refl

  one_more :
      (t : Task S A Schema) (ts runs running waiting : List (Task S A Schema))
      → Perm ts (runs ++ (running ++ waiting))
      → Perm (t ∷ ts) (runs ++ (running ++ t ∷ waiting))
  one_more t ts runs running waiting h = rw (sym (append_assoc runs running (t ∷ waiting))) (
      Perm.trans (Perm.cons t (rw (append_assoc runs running waiting) h))
        (Perm.symm (perm_middle (runs ++ running) waiting)))

  one_taken :
      (ts runs before : List (Task S A Schema)) (t : Task S A Schema)
      (behind : List (Task S A Schema)) (q : Queue S A Schema)
      → q.waiting ≡ before ++ t ∷ behind
      → q.running ≡ none
      → Perm ts (runs ++ (running_of q.running ++ q.waiting))
      → Perm ts (runs ++ t ∷ (before ++ behind))
  one_taken ts runs before t behind q w idle h =
      Perm.trans (rw (w, idle) at h) (Perm.append_left runs (perm_middle before behind))

  one_finished :
      (ts : List (Task S A Schema)) (runs : List (Run S A Schema)) (t : Task S A Schema)
      (times : ℕ × ℕ) (q : Queue S A Schema)
      → q.running ≡ some t
      → Perm ts (tasks_of runs ++ (running_of q.running ++ q.waiting))
      → Perm ts (tasks_of (runs ++ (t, times) ∷ []) ++ q.waiting)
  one_finished ts runs t times q running h =
      rw (tasks_of-append runs t times, append_assoc (tasks_of runs) (t ∷ []) q.waiting)
        (rw running at h)

  all_run :
      (ts runs : List (Task S A Schema)) (q : Queue S A Schema)
      → q.waiting ≡ []
      → q.running ≡ none
      → Perm ts (runs ++ (running_of q.running ++ q.waiting))
      → Perm ts runs
  all_run ts runs q no_waiting idle h =
      let k : Perm ts (runs ++ []) = rw (no_waiting, idle) at h in rw (append-nil runs) at k

  abbrev pub IsSerial : S → List (Task S A Schema) → Queue S A Schema → Type 0
  IsSerial s ts q =
      (runs : List (Run S A Schema)) × (in_sequence runs s ≡ (q.finished, q.world))
      × Perm ts (tasks_of runs ++ (running_of q.running ++ q.waiting))

  -- Whatever the order in which a storage service receives the tasks: the finished ones and the world are
  -- what running some of the submitted tasks one after the other gives, each once, and the others are the one that
  -- is running, if any, and those that wait. No task is lost, and none runs twice.
  pub reached-IsSerial :
      (s : S) (ts : List (Task S A Schema)) (q : Queue S A Schema)
      → Reached validate s ts q
      → IsSerial s ts q
  reached-IsSerial s ts q begun = ([], nothing_run s, Perm.refl [])
  reached-IsSerial s ts q (submitted {ts = us} {q = p} t r) =
      let h = reached-IsSerial s us p r in
      (h.0, h.1, one_more t us (tasks_of h.0) (running_of p.running) p.waiting h.2)
  reached-IsSerial s ts q (received {q = p} before t behind w idle r) =
      let h = reached-IsSerial s ts p r in
      (h.0, h.1, one_taken ts (tasks_of h.0) before t behind p w idle h.2)
  reached-IsSerial s ts q (finished {q = p} now later t running r) =
      let h = reached-IsSerial s ts p r in
      (
        h.0 ++ (t, (now, later)) ∷ [],
        in_sequence-append h.0 t now later s
            ∙ ap
                (λ x. let done = exec_task validate now later t x.1 in (x.0 ++ done.0 ∷ [], done.1))
                h.1,
        one_finished ts h.0 t (now, later) p running h.2,
      )

  -- `Onward q q'`: the service goes on from `q` to `q'` by receiving and finishing tasks, with no further one submitted.
  pub data Onward : Queue S A Schema → Queue S A Schema → Type 0 where
    here : {q : Queue S A Schema} → Onward q q
    receiving :
        {q q' : Queue S A Schema}
        → (before : List (Task S A Schema)) (t : Task S A Schema) (behind : List (Task S A Schema))
        → q.waiting ≡ before ++ t ∷ behind
        → q.running ≡ none
        → Onward (receive before t behind q) q'
        → Onward q q'
    finishing :
        {q q' : Queue S A Schema}
        → (now later : ℕ) (t : Task S A Schema) → q.running ≡ some t
        → Onward (finish validate now later t q) q'
        → Onward q q'

  Onward-Reached :
      (s : S) (ts : List (Task S A Schema)) (q q' : Queue S A Schema)
      → Onward q q'
      → Reached validate s ts q
      → Reached validate s ts q'
  Onward-Reached s ts q q' here r = r
  Onward-Reached s ts q q' (receiving before t behind w idle o) r =
      Onward-Reached s ts (receive before t behind q) q' o (received before t behind w idle r)
  Onward-Reached s ts q q' (finishing now later t running o) r =
      Onward-Reached s ts (finish validate now later t q) q' o (finished now later t running r)

  abbrev pub Drained : Queue S A Schema → Type 0
  Drained q = (q' : Queue S A Schema) × Onward q q' × (q'.waiting ≡ []) × (q'.running ≡ none)

  drain_waiting :
      (w : List (Task S A Schema)) (q : Queue S A Schema)
      → q.waiting ≡ w
      → q.running ≡ none
      → Drained q
  drain_waiting [] q e idle = (q, here, e, idle)
  drain_waiting (t ∷ w) q e idle =
      let (q', o, no_waiting, ends) =
        drain_waiting w (finish validate 0 0 t (receive [] t w q)) refl refl in
      (q', receiving [] t w e idle (finishing 0 0 t refl o), no_waiting, ends)

  drain :
      (running : Option (Task S A Schema)) (q : Queue S A Schema) → q.running ≡ running → Drained q
  drain none q e = drain_waiting q.waiting q refl e
  drain (some t) q e =
      let (q', o, no_waiting, ends) = drain_waiting q.waiting (finish validate 0 0 t q) refl refl in
      (q', finishing 0 0 t e o, no_waiting, ends)

  -- A storage service is never stuck: from wherever it is, by receiving and finishing tasks and with no further one
  -- submitted, it goes on to a state where no task waits or runs; and there all submitted tasks have been run one after the
  -- other, each once.
  pub reached-drains :
      (s : S) (ts : List (Task S A Schema)) (q : Queue S A Schema)
      → Reached validate s ts q
      → (q' : Queue S A Schema) × Onward q q'
        × (q'.waiting ≡ [])
        × (q'.running ≡ none)
        × (runs : List (Run S A Schema)) × (in_sequence runs s ≡ (q'.finished, q'.world))
        × Perm ts (tasks_of runs)
  reached-drains s ts q r =
      let (q', o, no_waiting, idle) = drain q.running q refl in
      let (runs, run, perm) = reached-IsSerial s ts q' (Onward-Reached s ts q q' o r) in
      (q', o, no_waiting, idle, runs, run, all_run ts (tasks_of runs) q' no_waiting idle perm)
