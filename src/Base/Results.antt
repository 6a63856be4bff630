-- ===== src/Base/Results.antt =====
-- A Go function that returns a value and an error returns a `Result`; one that also changes a state
-- is an `Exec`. What was written before an error stays written, so the state comes back beside it.

pub data Result {ℓ κ} (E : Type ℓ) (A : Type κ) : Type (ℓ ⊔ κ) where
  ok : A → Result E A
  err : E → Result E A

abbrev pub Exec {ℓ} : Type ℓ → Type ℓ → Type ℓ → Type ℓ
Exec S E A = S → Result E A × S

module _ {ℓ} {S E A : Type ℓ} where
  abbrev pub pure : A → Exec S E A
  pure a s = (ok a, s)

  abbrev pub raise : E → Exec S E A
  raise e s = (err e, s)

abbrev pub continue {ℓ} : {S E A B : Type ℓ} → Result E A → (A → Exec S E B) → Exec S E B
continue (ok a) f s = f a s
continue (err e) f s = (err e, s)

-- `abbrev`, so that a block computes wherever it stands.
infixl 5 ◌>>=◌ ◌>>◌
abbrev pub ◌>>=◌ {ℓ} : {S E A B : Type ℓ} → Exec S E A → (A → Exec S E B) → Exec S E B
◌>>=◌ m f s = continue (m s).0 f (m s).1

abbrev pub ◌>>◌ {ℓ} : {S E A B : Type ℓ} → Exec S E A → Exec S E B → Exec S E B
m >> k = m >>= λ _. k

-- What a predicate on results owes at the end of a block, if it holds for every error.
module _ {ℓ} {S E A B : Type ℓ} (P : Result E B → Type ℓ) (errors : (e : E) → P (err e)) where
  pub continue-keeps :
      (r : Result E A × S) (f : A → Exec S E B)
      → ((a : A) (s : S) → P (f a s).0)
      → P (continue r.0 f r.1).0
  continue-keeps (ok a, s) f h = h a s
  continue-keeps (err e, s) f h = errors e
