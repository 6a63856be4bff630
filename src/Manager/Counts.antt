-- ===== src/Manager/Counts.antt =====
-- The bounds of the counts of api/registry/registry_integration.go.
use libstorage.Base.{
  ℕ, suc, zero, not, ◌&&◌, ◌^◌, ◌≤◌, ◌<◌, ◌≡◌, refl, List, [], ◌∷◌, Bool, true, false, Option, none,
  some, Text, Result, ok, err, arith, text_eq, text_beq_iff, if◌then◌else◌, ◌==◌, Bool-cases, inl,
  inr,
}
use libstorage.Base.Int.{ℤ, pos, negsuc, increment}
use libstorage.Base.Dict.{Dict, get, put, get-put}
use libstorage.Store.{KeyValueStore}
use libstorage.Types.Errors.{Error}
use libstorage.Types.Models.{Volume}
use libstorage.Linux.Volumes.{VolumeMapping}
use libstorage.Linux.Mounts.{VolumeMountOpts}
use libstorage.Manager.{
  IntegrationDriver, ManagerConfig, Managed, changed, init_count, reset_count, add_count,
  is_counted, below_two, counted, listed, init_counts, list, mount, unmount, path, passes_on, named,
}

-- A count from 0 to `n`.
abbrev pub IsBelow : ℕ → ℤ → Type 0
IsBelow n (pos c) = c ≤ n
IsBelow n (negsuc c) = ⊥

abbrev FoundBelow : ℕ → Option ℤ → Type 0
FoundBelow n none = Unit
FoundBelow n (some c) = IsBelow n c

-- All counts are from 0 to `n`.
abbrev pub AreBelow : ℕ → Dict Text ℤ → Type 0
AreBelow n used = (k : Text) → FoundBelow n (get used k)

put-AreBelow :
    (n : ℕ) (k : Text) (c : ℤ) (used : Dict Text ℤ)
    → IsBelow n c
    → AreBelow n used
    → AreBelow n (put k c used)
put-AreBelow n k c used h hs j =
    rw get-put (elim (Bool-cases (k == j)) [ inl e ↦ rw e h | inr e ↦ rw e (hs j) ])

found-more : (n : ℕ) (o : Option ℤ) → FoundBelow n o → FoundBelow (suc n) o
found-more n none h = tt
found-more n (some (pos c)) h = omega arith
found-more n (some (negsuc c)) h = absurd h

increment-IsBelow :
    (n : ℕ) (o : Option ℤ) → suc n < 2 ^ 63 → FoundBelow n o → IsBelow (suc n) (changed increment o)
increment-IsBelow n none lt h = omega arith
increment-IsBelow n (some (pos c)) lt h = ground arith
increment-IsBelow n (some (negsuc c)) lt h = absurd h

if-AreBelow :
    (n : ℕ) (b : Bool) (u v : Dict Text ℤ)
    → AreBelow n u
    → AreBelow n v
    → AreBelow n (if b then u else v)
if-AreBelow n true u v hu hv = hu
if-AreBelow n false u v hu hv = hv

init_counts-AreBelow :
    (n : ℕ) (vms : List VolumeMapping) (used : Dict Text ℤ)
    → AreBelow n used
    → AreBelow n (init_counts vms used)
unfolding init_counts init_count
init_counts-AreBelow n [] used h = h
init_counts-AreBelow n (vm ∷ vms) used h = init_counts-AreBelow n vms _ (
    if-AreBelow n (not (is_counted vm.name used) && not (vm.volume_mount_point == [])) _ used
      (put-AreBelow n vm.name (pos 0) used (omega arith) h) h)

module _ (c : ManagerConfig) (name : Text) (used : Dict Text ℤ) where
  -- Unmount keeps from the driver only what is mounted twice or more.
  kept_back :
      (o : Option ℤ)
      → get used name ≡ o
      → (passes_on c name used).0 ≡ false
      → (m : ℕ) × (o ≡ some (pos (suc (suc m)))) × ((passes_on c name used).1 ≡ used)
  unfolding passes_on reset_count is_counted
  kept_back none e off = absurd (ground (arith, e, off))
  kept_back (some (pos zero)) e off =
      absurd (ground (arith, e, off, get-put used name name (pos 0), text_beq_iff name name))
  kept_back (some (pos (suc zero))) e off =
      absurd (ground (arith, e, off, get-put used name name (pos 0), text_beq_iff name name))
  kept_back (some (pos (suc (suc m)))) e off = (m, refl, ground (arith, e))
  kept_back (some (negsuc m)) e off =
      absurd (ground (arith, e, off, get-put used name name (pos 0), text_beq_iff name name))

  passes_on-AreBelow :
      (n : ℕ) (o : Option ℤ)
      → get used name ≡ o
      → AreBelow n used
      → AreBelow n (passes_on c name used).1
  unfolding passes_on reset_count is_counted
  passes_on-AreBelow n none e h =
      rw e (elim (Bool-cases c.ignore_used_count) [ inl i ↦ rw i h | inr i ↦ rw i h ])
  passes_on-AreBelow n (some v) e h = rw e (elim (Bool-cases c.ignore_used_count) [
    | inl i ↦ rw i h
    | inr i ↦ rw i (elim (Bool-cases (below_two v)) [
      | inl b ↦ rw b (put-AreBelow n name (pos 0) used (omega arith) h)
      | inr b ↦ rw b h
    ])
  ])

module _ {S : Type 0} (c : ManagerConfig) (d : IntegrationDriver S) (n : ℕ) (s : Managed S)
    (h : AreBelow n s.used) where
  mount-AreBelow :
      (volume_id volume_name : Text) (opts : VolumeMountOpts)
      → suc n < 2 ^ 63
      → AreBelow (suc n) (mount c d volume_id volume_name opts s).1.used
  unfolding mount counted add_count
  mount-AreBelow volume_id volume_name opts lt =
      go (d.mount volume_id volume_name (record opts { preempt = c.preempt }) s.world).0 _
    where
      more : AreBelow (suc n) s.used
      more k = found-more n (get s.used k) (h k)

      go :
          (r : Result Error (Text × Volume)) (w : S)
          → AreBelow (suc n) (counted c d volume_name r (record s { world = w })).1.used
      go (err e) w = more
      go (ok (mp, vol)) w =
          put-AreBelow (suc n) volume_name _ s.used
            (increment-IsBelow n (get s.used volume_name) lt (h volume_name)) more

  unmount-AreBelow :
      (volume_id volume_name : Text) (opts : KeyValueStore)
      → AreBelow n (unmount c d volume_id volume_name opts s).1.used
  unfolding unmount init_count add_count
  unmount-AreBelow volume_id volume_name opts =
      let kept = passes_on-AreBelow c volume_name s.used n (get s.used volume_name) refl h in
      elim (Bool-cases (passes_on c volume_name s.used).0) [
        | inl e ↦ rw e (put-AreBelow n volume_name (pos 0) _ (omega arith) kept)
        | inr e ↦
            let (m, two, same) = kept_back c volume_name s.used _ refl e in
            rw (e, same)
              (put-AreBelow n volume_name _ s.used (rw two (ground (arith, two, h volume_name))) h)
      ]

  list-AreBelow : (opts : KeyValueStore) → AreBelow n (list c d opts s).1.used
  unfolding list listed
  list-AreBelow opts = go (d.list opts s.world).0 _
    where
      go :
          (r : Result Error (List VolumeMapping)) (w : S)
          → AreBelow n (listed c d r (record s { world = w })).1.used
      go (err e) w = h
      go (ok vms) w = elim (Bool-cases c.path_cache_enabled) [
        | inl e ↦ rw e (init_counts-AreBelow n (named vms) s.used h)
        | inr e ↦ rw e h
      ]

  -- The counts never leave the range from 0 to the number of mounts so far, as long as that is an
  -- int: where they are at most `n`, a Mount leaves them at most `n + 1`, and an Unmount, a List and a
  -- Path at most `n`, whatever the driver does.
  pub counts_bounded :
      (volume_id volume_name : Text) (mount_opts : VolumeMountOpts) (opts : KeyValueStore)
      → suc n < 2 ^ 63
      → AreBelow (suc n) (mount c d volume_id volume_name mount_opts s).1.used
        × AreBelow n (unmount c d volume_id volume_name opts s).1.used
        × AreBelow n (list c d opts s).1.used
        × AreBelow n (path c d volume_id volume_name opts s).1.used
  unfolding path
  counts_bounded volume_id volume_name mount_opts opts lt = (
    mount-AreBelow volume_id volume_name mount_opts lt,
    unmount-AreBelow volume_id volume_name opts,
    list-AreBelow opts,
    (elim (Bool-cases (c.path_cache_enabled && not (is_counted volume_name s.used))) [
      | inl e ↦ rw e h
      | inr e ↦ rw e h
    ]),
  )
