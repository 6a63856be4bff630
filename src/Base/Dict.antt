-- ===== src/Base/Dict.antt =====
-- A Go map as an association list with one entry for each key. Ranging over a map is in the order
-- of the entries, which the program leaves open.
use mathlib.Core.Path.{◌≡◌, refl}
use mathlib.Core.Bool.{Bool, true, false}
use mathlib.Core.Option.{Option, none, some}
use mathlib.Core.List.{List, [], ◌∷◌, ◌++◌}
use mathlib.Core.Logic.{◌≢◌}
use native.Mathlib.Omega.{arith}
use Prim.Native.Nat.{suc}
use libstorage.Base.Tests.{Eq, ◌==◌, if◌then◌else◌}
use libstorage.Base.Lists.{length}

abbrev pub Dict {ℓ} : Type ℓ → Type ℓ → Type ℓ
Dict K V = List (K × V)

module _ {ℓ} {K V : Type ℓ} ⦃e : Eq K⦄ where
  -- v, ok := m[k]
  unfoldable pub get : Dict K V → K → Option V
  get [] k = none
  get ((j, v) ∷ m) k = if j == k then some v else get m k

  -- m[k] = v
  unfoldable pub put : K → V → Dict K V → Dict K V
  put k v [] = (k, v) ∷ []
  put k v ((j, w) ∷ m) = if j == k then (k, v) ∷ m else (j, w) ∷ put k v m

  -- delete(m, k)
  unfoldable pub delete : K → Dict K V → Dict K V
  delete k [] = []
  delete k ((j, v) ∷ m) = let rest = delete k m in if j == k then rest else (j, v) ∷ rest

  pub get-put :
      (m : Dict K V) (k j : K) (v : V) → get (put k v m) j ≡ (if k == j then some v else get m j)
  unfolding get put
  get-put [] k j v = refl
  get-put ((i, w) ∷ m) k j v =
      ground (arith, e.exact i k, e.exact i j, e.exact k j, get-put m k j v)

  pub get-delete :
      (m : Dict K V) (k j : K) → get (delete k m) j ≡ (if k == j then none else get m j)
  unfolding get delete
  get-delete [] k j = ground arith
  get-delete ((i, w) ∷ m) k j =
      ground (arith, e.exact i k, e.exact i j, e.exact k j, get-delete m k j)

-- Bool: the key is there.
abbrev pub is_some {ℓ} : {A : Type ℓ} → Option A → Bool
is_some none = false
is_some (some a) = true

-- The representation invariant: no key stands twice.
abbrev pub Distinct {ℓ} : {K V : Type ℓ} ⦃e : Eq K⦄ → Dict K V → Type ℓ
Distinct [] = Unit
Distinct ((k, v) ∷ m) = (get m k ≡ none) × Distinct m

module _ {ℓ} {K V : Type ℓ} ⦃e : Eq K⦄ where
  pub put-Distinct : (k : K) (v : V) (m : Dict K V) → Distinct m → Distinct (put k v m)
  unfolding get put
  put-Distinct k v [] h = (refl, tt)
  put-Distinct k v ((j, w) ∷ m) h =
      ground (arith, put-Distinct k v m, get-put m k j v, e.exact j k, e.exact k j)

  pub delete-Distinct : (k : K) (m : Dict K V) → Distinct m → Distinct (delete k m)
  unfolding get delete
  delete-Distinct k [] h = tt
  delete-Distinct k ((j, w) ∷ m) h =
      ground (arith, delete-Distinct k m, get-delete m k j, e.exact j k, e.exact k j)

  pub length-put :
      (k : K) (v : V) (m : Dict K V) → get m k ≡ none → length (put k v m) ≡ suc (length m)
  unfolding get put
  length-put k v [] h = refl
  length-put k v ((j, w) ∷ m) h = ground (arith, length-put k v m)

  length-delete_absent : (k : K) (m : Dict K V) → get m k ≡ none → length (delete k m) ≡ length m
  unfolding get delete
  length-delete_absent k [] h = refl
  length-delete_absent k ((j, w) ∷ m) h = ground (arith, length-delete_absent k m)

  pub length-delete :
      (k : K) (v : V) (m : Dict K V)
      → Distinct m
      → get m k ≡ some v
      → suc (length (delete k m)) ≡ length m
  unfolding get delete
  length-delete k v [] d h = cc
  length-delete k v ((j, w) ∷ m) d h =
      ground (arith, length-delete k v m, length-delete_absent k m, e.exact j k)

  -- A key that is not there is put at the end.
  pub put_fresh : (m : Dict K V) (k : K) (v : V) → get m k ≡ none → put k v m ≡ m ++ (k, v) ∷ []
  unfolding get put
  put_fresh [] k v h = refl
  put_fresh ((j, w) ∷ m) k v h = ground (arith, put_fresh m k v)

  get-append_there :
      (m : Dict K V) (k : K) (v : V) (rest : Dict K V) → get (m ++ (k, v) ∷ rest) k ≢ none
  unfolding get
  get-append_there [] k v rest = ground (arith, e.exact k k)
  get-append_there ((j, w) ∷ m) k v rest = ground (arith, get-append_there m k v rest)

  pub fresh_of_Distinct :
      (m : Dict K V) (k : K) (v : V) (rest : Dict K V)
      → Distinct (m ++ (k, v) ∷ rest)
      → get m k ≡ none
  unfolding get
  fresh_of_Distinct [] k v rest d = refl
  fresh_of_Distinct ((j, w) ∷ m) k v rest d =
      ground (arith, e.exact j k, get-append_there m k v rest, fresh_of_Distinct m k v rest d.1)
