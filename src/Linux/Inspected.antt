-- ===== src/Linux/Inspected.antt =====
-- Inspect against List of drivers/integration/linux/linux.go.
use libstorage.Base.{
  ℕ, ◌≡◌, ◌⊎◌, refl, List, [], ◌∷◌, Bool, true, false, none, some, Text, ok, err, to_lower, ◌==◌,
  text_eq, inl, inr, All, In, Bool-cases,
}
use libstorage.Types.Errors.{not_found}
use libstorage.Store.{KeyValueStore}
use libstorage.Linux.{Client}
use libstorage.Linux.Volumes.{VolumeMapping, first_mapping, list, inspect}

abbrev pub has_name : Text → VolumeMapping → Bool
has_name n o = to_lower n == to_lower o.name

first_mapping-cases :
    (n : Text) (objs : List VolumeMapping)
    → ((o : VolumeMapping) × (first_mapping n objs ≡ some o) × In o objs × (has_name n o ≡ true))
      ⊎ ((first_mapping n objs ≡ none) × All (λ o. has_name n o ≡ false) objs)
first_mapping-cases n [] = inr (refl, tt)
first_mapping-cases n (o ∷ objs) = elim (Bool-cases (has_name n o)) [
  | inl e ↦ inl (o, rw e refl, inl refl, e)
  | inr e ↦ elim (first_mapping-cases n objs) [
    | inl (u, found, h, named) ↦ inl (u, rw e found, inr h, named)
    | inr (lost, h) ↦ inr (rw e lost, (e, h))
  ]
]

-- Where List gives the mappings `objs`, Inspect ends in the same state: either with one of them that
-- has the name but for case, or, if none has, with the error that the volume is not found.
pub inspect-list :
    {S : Type 0} (c : Client S) (n : Text) (opts : KeyValueStore) (now : ℕ)
    (objs : List VolumeMapping) (s s' : S)
    → list c opts now s ≡ (ok objs, s')
    → ((o : VolumeMapping) × (inspect c n opts now s ≡ (ok o, s'))
        × In o objs
        × (has_name n o ≡ true))
      ⊎ ((inspect c n opts now s ≡ (err (not_found n), s')) × All (λ o. has_name n o ≡ false) objs)
unfolding inspect
inspect-list c n opts now objs s s' listed = elim (first_mapping-cases n objs) [
  | inl (o, found, h, named) ↦ inl (o, rw (listed, found) refl, h, named)
  | inr (lost, h) ↦ inr (rw (listed, lost) refl, h)
]
