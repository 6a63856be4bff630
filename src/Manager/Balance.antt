-- ===== src/Manager/Balance.antt =====
-- Which unmounts of api/registry/registry_integration.go reach the driver.
use libstorage.Base.{
  ℕ, zero, suc, ◌≡◌, refl, ap, List, [], ◌∷◌, true, false, Option, none, some, Text, Result, ok,
  err, arith, text_eq, text_beq_refl, sym,
}
use libstorage.Base.Int.{ℤ, pos, increment}
use libstorage.Base.Dict.{Dict, get, put, get-put}
use libstorage.Store.{KeyValueStore}
use libstorage.Types.Errors.{Error}
use libstorage.Types.Models.{Volume}
use libstorage.Linux.Mounts.{VolumeMountOpts}
use libstorage.Manager.{
  IntegrationDriver, ManagerConfig, Managed, init_count, reset_count, add_count, is_counted, mount,
  counted, unmount, passes_on,
}

get-put_self : (k : Text) (v : ℤ) (used : Dict Text ℤ) → get (put k v used) k ≡ some v
get-put_self k v used = ground (arith, get-put used k k v, text_beq_refl k)

module _ (c : ManagerConfig) (name : Text) (used : Dict Text ℤ)
    (counting : c.ignore_used_count ≡ false) where
  passes_on_two :
      (m : ℕ) → get used name ≡ some (pos (suc (suc m))) → passes_on c name used ≡ (false, used)
  unfolding passes_on reset_count is_counted
  passes_on_two m e = ground (arith, e)

  passes_on_one :
      get used name ≡ some (pos 1) → passes_on c name used ≡ (true, put name (pos 0) used)
  unfolding passes_on reset_count is_counted
  passes_on_one e = rw (counting, e) refl

module _ {S : Type 0} (c : ManagerConfig) (d : IntegrationDriver S) (volume_id name : Text)
    (opts : KeyValueStore) where
  -- Unmounts in a row, with their results.
  abbrev pub unmounts : ℕ → Managed S → List (Result Error (Option Volume)) × Managed S
  unmounts zero s = ([], s)
  unmounts (suc k) s =
      let (r, s1) = unmount c d volume_id name opts s in
      let (rs, s2) = unmounts k s1 in (r ∷ rs, s2)

  -- `k` results that are nil, and one more.
  abbrev pub nil_then : ℕ → Result Error (Option Volume) → List (Result Error (Option Volume))
  nil_then zero r = r ∷ []
  nil_then (suc k) r = ok none ∷ nil_then k r

  module _ (counting : c.ignore_used_count ≡ false) where
    unmount_one :
        (s : Managed S)
        → get s.used name ≡ some (pos 1)
        → unmount c d volume_id name opts s ≡ (
          (d.unmount volume_id name opts s.world).0,
          record {
            used = put name (pos 0) (put name (pos 0) s.used);
            world = (d.unmount volume_id name opts s.world).1;
          },
        )
    unfolding unmount init_count
    unmount_one s e = rw (passes_on_one c name s.used counting e) refl

    pub unmount_two :
        (m : ℕ) (s : Managed S)
        → get s.used name ≡ some (pos (suc (suc m)))
        → unmount c d volume_id name opts s
          ≡ (ok none, record s { used = put name (pos (suc m)) s.used })
    unfolding unmount add_count
    unmount_two m s e = rw (passes_on_two c name s.used counting m e, e) refl

    -- A volume name that is mounted `k + 1` times, with a manager that heeds the counts, is unmounted
    -- `k + 1` times: the first `k` calls give nil and do not reach the driver, and the last one is one
    -- call of the driver's Unmount on the world as it was; the count is then 0.
    pub last_unmount_reaches_driver :
        (k : ℕ) (s : Managed S)
        → get s.used name ≡ some (pos (suc k))
        → ((unmounts (suc k) s).0 ≡ nil_then k (d.unmount volume_id name opts s.world).0)
          × ((unmounts (suc k) s).1.world ≡ (d.unmount volume_id name opts s.world).1)
          × (get (unmounts (suc k) s).1.used name ≡ some (pos 0))
    last_unmount_reaches_driver zero s e =
        rw (unmount_one s e) (refl, refl, get-put_self name (pos 0) _)
    last_unmount_reaches_driver (suc k) s e =
        let rest =
          last_unmount_reaches_driver k (record s { used = put name (pos (suc k)) s.used })
            (get-put_self name (pos (suc k)) s.used) in
        rw (unmount_two k s e) (ap (λ rs. ok none ∷ rs) rest.0, rest.1, rest.2)

module _ {S : Type 0} (c : ManagerConfig) (d : IntegrationDriver S) where
  mount-used :
      (volume_id name : Text) (opts : VolumeMountOpts) (s s1 : Managed S) (r : Text × Volume)
      → mount c d volume_id name opts s ≡ (ok r, s1)
      → s1.used ≡ add_count name increment s.used
  unfolding mount counted
  mount-used volume_id name opts s s1 r e =
      go (d.mount volume_id name (record opts { preempt = c.preempt }) s.world).0 _ e
    where
      go :
          (q : Result Error (Text × Volume)) (w : S)
          → counted c d name q (record s { world = w }) ≡ (ok r, s1)
          → s1.used ≡ add_count name increment s.used
      go (err x) w h = absurd (ground (arith, h))
      go (ok (mp, vol)) w h = sym (ap (λ p. p.1.used) h)

  -- Two volumes that are mounted by their IDs, so that both count under the empty name: the Unmount of
  -- one of them by its ID gives nil and does not reach the driver, with a manager that heeds the counts
  -- and has counted no mount under the empty name before.
  unmount_by_id_kept_back :
      (a b : Text) (mount_opts : VolumeMountOpts) (opts : KeyValueStore) (s s1 s2 : Managed S)
      (r1 r2 : Text × Volume)
      → c.ignore_used_count ≡ false
      → get s.used [] ≡ none
      → mount c d a [] mount_opts s ≡ (ok r1, s1)
      → mount c d b [] mount_opts s1 ≡ (ok r2, s2)
      → ((unmount c d b [] opts s2).0 ≡ ok none) × ((unmount c d b [] opts s2).1.world ≡ s2.world)
  unmount_by_id_kept_back a b mount_opts opts s s1 s2 r1 r2 counting fresh first second =
      rw (unmount_two c d b [] opts counting 0 s2 two) (refl, refl)
    where
      one : get s1.used [] ≡ some (pos 1)
      one =
          rw (mount-used a [] mount_opts s s1 r1 first)
            (unfold add_count in rw fresh (get-put_self [] (pos 1) s.used))

      two : get s2.used [] ≡ some (pos 2)
      two =
          rw (mount-used b [] mount_opts s1 s2 r2 second)
            (unfold add_count in rw one (get-put_self [] (pos 2) s1.used))
