-- ===== src/Os/Retries.antt =====
-- The tries of forceUnmount in drivers/os/linux/linux_mount.go.
use libstorage.Base.{ℕ, zero, suc, ◌<◌, ◌≡◌, refl, ◌⊎◌, inl, inr, Text, Result, ok, err, arith}
use libstorage.Types.Errors.{Error}
use libstorage.Os.{Kernel}
use libstorage.Os.Syscalls.{retry_unmount, force_unmount}

-- `Failures n p q`: from the last result and the world of `p`, `n` tries fail, with a sleep after each,
-- and leave the last error and the world of `q`.
pub data Failures {S : Type 0} (k : Kernel S) (target : Text)
    : ℕ → Result Error (Unit {0}) × S → Result Error (Unit {0}) × S → Type 0 where
  no_more : {p : Result Error (Unit {0}) × S} → Failures k target 0 p p
  failed :
      {n : ℕ} {last : Result Error (Unit {0})} {s s1 : S} {e : Error}
      {q : Result Error (Unit {0}) × S}
      → k.unmount target s ≡ (err e, s1)
      → Failures k target n (err e, k.sleep s1) q
      → Failures k target (suc n) (last, s) q

module _ {S : Type 0} (k : Kernel S) (target : Text) where
  -- The loop ended by a try that succeeded, after fewer than `n` failures; or `n` tries failed.
  abbrev pub Ends : ℕ → Result Error (Unit {0}) × S → Result Error (Unit {0}) × S → Type 0
  Ends n p r =
      ((m : ℕ) × (q : Result Error (Unit {0}) × S) × (m < n)
        × Failures k target m p q
        × (k.unmount target q.1 ≡ r)
        × (r.0 ≡ ok tt))
      ⊎ Failures k target n p r

  Ends-failed :
      (n : ℕ) (last : Result Error (Unit {0})) (s s1 : S) (e : Error)
      (r : Result Error (Unit {0}) × S)
      → k.unmount target s ≡ (err e, s1)
      → Ends n (err e, k.sleep s1) r
      → Ends (suc n) (last, s) r
  Ends-failed n last s s1 e r h (inl (m, q, less, f, u, o)) =
      inl (suc m, q, omega (arith, less), failed h f, u, o)
  Ends-failed n last s s1 e r h (inr f) = inr (failed h f)

  retry_unmount-Ends :
      (n : ℕ) (last : Result Error (Unit {0})) (s : S)
      → Ends n (last, s) (retry_unmount k target n last s)
  unfolding retry_unmount
  retry_unmount-Ends zero last s = inr no_more
  retry_unmount-Ends (suc n) last s = go (k.unmount target s) refl (retry_unmount-Ends n)
    where
      go :
          (u : Result Error (Unit {0}) × S)
          → k.unmount target s ≡ u
          → ((l : Result Error (Unit {0})) (s' : S)
              → Ends n (l, s') (retry_unmount k target n l s'))
          → Ends (suc n) (last, s) (retry_unmount k target (suc n) last s)
      go (ok u, s1) h again = rw h (inl (zero, (last, s), omega arith, no_more, h, refl))
      go (err e, s1) h again = rw h (
          Ends-failed n last s s1 e (retry_unmount k target n (err e) (k.sleep s1)) h
            (again (err e) (k.sleep s1)))

  Failures-error :
      {n : ℕ} {p q : Result Error (Unit {0}) × S}
      → Failures k target n p q
      → ((e : Error) × (p.0 ≡ err e))
      → (e : Error) × (q.0 ≡ err e)
  Failures-error no_more given = given
  Failures-error (failed {e = e} h f) given = Failures-error f (e, refl)

  last-Failures :
      {n : ℕ} {p q : Result Error (Unit {0}) × S}
      → Failures k target (suc n) p q
      → (e : Error) × (q.0 ≡ err e)
  last-Failures (failed {e = e} h f) = Failures-error f (e, refl)

  -- A forced unmount ends after at most ten tries: either one of the first ten succeeds, after fewer
  -- than ten failures with a sleep after each, and this is the answer, with no further try or sleep; or
  -- ten tries fail, and the answer is the error of the last one, after a sleep.
  pub force_unmount_ten :
      (s : S)
      → let r = force_unmount k target s in
        ((m : ℕ) × (q : Result Error (Unit {0}) × S) × (m < 10)
          × Failures k target m (ok tt, s) q
          × (k.unmount target q.1 ≡ r)
          × (r.0 ≡ ok tt))
        ⊎ (Failures k target 10 (ok tt, s) r × ((e : Error) × (r.0 ≡ err e)))
  unfolding force_unmount
  force_unmount_ten s = elim (retry_unmount-Ends 10 (ok tt) s) [
    | inl h ↦ inl h
    | inr f ↦ inr (f, last-Failures f)
  ]
