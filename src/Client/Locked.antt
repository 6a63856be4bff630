-- ===== src/Client/Locked.antt =====
-- The executor's lock, of drivers/storage/libstorage/libstorage_client_xcli.go.
use libstorage.Base.{ℕ, zero, suc, ◌<◌, List, true, false, Text, Result, ok, err, ◌≡◌, arith}
use libstorage.Types.Errors.{Error, panicked}
use libstorage.Client.{
  Fault, failed, integration_client, Host, Outcome, Platform, Settings, executed, wait_lock,
  run_executor, lsx_mutex_wait, lsx_mutex_signal,
}

-- A run's answer behind the removal of the lock file.
abbrev pub told : {A : Type 0} → Result Error (Unit {0}) → Result Fault A → Result Fault A
told (ok u) r = r
told (err e) r = err (failed panicked)

module _ {S : Type 0} (c : Settings) (p : Platform S) where
  -- `m` tries to create the lock file fail, with a sleep after each, and the next one succeeds.
  abbrev pub FreeAfter : ℕ → S → S → Type 0
  FreeAfter zero s s' = p.open_lock s ≡ (true, s')
  FreeAfter (suc m) s s' = (t : S) × (p.open_lock s ≡ (false, t)) × FreeAfter m (p.sleep t) s'

  wait_lock_free :
      (m n : ℕ) (s s' : S) → FreeAfter m s s' → m < n → wait_lock c p n s ≡ p.close_lock s'
  unfolding wait_lock
  wait_lock_free m zero s s' free lt = absurd (omega arith)
  wait_lock_free zero (suc n) s s' free lt = rw free
  wait_lock_free (suc m) (suc n) s s' free lt =
      rw free.1 (wait_lock_free m n (p.sleep free.0) s' free.2 (omega arith))

  -- A client that is no controller, where the lock gets free after `m` tries, with more than `m` rounds for the wait, and
  -- its file is closed without an error: however the run of the executor ends, the lock file is removed
  -- afterwards, and the answer is that of the run, or a panic if the removal fails.
  pub run_executor_unlocks :
      (args : List Text) (m : ℕ) (h : Host S) (s s1 s2 s3 : S) (o : Outcome)
      (removed : Result Error (Unit {0}))
      → c.client_type ≡ integration_client
      → FreeAfter m h.world s
      → m < c.rounds
      → p.close_lock s ≡ (ok tt, s1)
      → p.output args s1 ≡ (o, s2)
      → p.remove_lock s2 ≡ (removed, s3)
      → run_executor c p args h ≡ (told removed (executed o), record h { world = s3 })
  unfolding run_executor lsx_mutex_wait lsx_mutex_signal
  run_executor_unlocks args m h s s1 s2 s3 o (ok tt) i free lt closed ran removed =
      rw (i, wait_lock_free m c.rounds h.world s free lt, closed, ran, removed)
  run_executor_unlocks args m h s s1 s2 s3 o (err e) i free lt closed ran removed =
      rw (i, wait_lock_free m c.rounds h.world s free lt, closed, ran, removed)
