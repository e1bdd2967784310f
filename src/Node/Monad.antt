-- ===== src/Node/Monad.antt =====
-- Explicit state passing with errors, for the methods of runtime/ntl-core/src/node.rs: `and_then` is the `?`
-- operator between two steps.
use ntl.Base.{◌≡◌, ap, refl, arith, Result, ok, err}

abbrev pub Act {ℓ} : Type ℓ → Type ℓ → Type ℓ → Type ℓ
Act S E A = S → Result E A × S

module _ {S E A : Type 0} where
  abbrev pub pure : A → Act S E A
  pure a s = (ok a, s)

  abbrev pub fail : E → Act S E A
  fail e s = (err e, s)

module _ {S E A B : Type 0} where
  abbrev pub continue : (A → Act S E B) → Result E A × S → Result E B × S
  continue f (ok a, s) = f a s
  continue f (err e, s) = (err e, s)

  -- The `?` operator between two steps.
  abbrev pub and_then : Act S E A → (A → Act S E B) → Act S E B
  and_then m f s = continue f (m s)

  infixl 5 ◌>>=◌ ◌>>◌
  unfoldable pub ◌>>=◌ : Act S E A → (A → Act S E B) → Act S E B
  ◌>>=◌ m f s = continue f (m s)

  abbrev pub ◌>>◌ : Act S E A → Act S E B → Act S E B
  m >> k = m >>= (λ a. k)

  continue-ok :
      (f : A → Act S E B) (p : Result E A × S) (s' : S) (b : B)
      → continue f p ≡ (ok b, s')
      → (a : A) × (s₁ : S) × (p ≡ (ok a, s₁)) × (f a s₁ ≡ (ok b, s'))
  continue-ok f (ok a, s₁) s' b e = (a, s₁, refl, e)
  continue-ok f (err x, s₁) s' b e = absurd (ground arith)

  -- A chain of steps that succeeds is made of steps that succeed.
  pub >>=-ok :
      (m : Act S E A) (f : A → Act S E B) (s s' : S) (b : B)
      → (m >>= f) s ≡ (ok b, s')
      → (a : A) × (s₁ : S) × (m s ≡ (ok a, s₁)) × (f a s₁ ≡ (ok b, s'))
  unfolding ◌>>=◌
  >>=-ok m f s s' b e = continue-ok f (m s) s' b e

module _ {E A B : Type 0} where
  -- The `?` operator on plain results.
  unfoldable pub or_return : Result E A → (A → Result E B) → Result E B
  or_return (ok a) f = f a
  or_return (err e) f = err e

  pub or_return-ok :
      (r : Result E A) (f : A → Result E B) (b : B)
      → or_return r f ≡ ok b
      → (a : A) × (r ≡ ok a) × (f a ≡ ok b)
  unfolding or_return
  or_return-ok (ok a) f b h = (a, refl, h)
  or_return-ok (err e) f b h = absurd (ground arith)

pub ok_inj : {E A : Type 0} (a b : A) → ◌≡◌ {A = Result E A} (ok a) (ok b) → a ≡ b
ok_inj a b h = cc

pub same_answer :
    {S E A : Type 0} (a b : A) (s s' : S)
    → ◌≡◌ {A = Result E A × S} (ok a, s) (ok b, s')
    → (a ≡ b) × (s ≡ s')
same_answer a b s s' h = (ok_inj a b (ap (λ p. p.0) h), ap (λ p. p.1) h)

module _ {S E E' A : Type 0} where
  -- `map_err`, on a step.
  unfoldable pub lifted : (E → E') → Result E A × S → Result E' A × S
  lifted f (ok a, s) = (ok a, s)
  lifted f (err e, s) = (err (f e), s)

  pub lifted-ok :
      (f : E → E') (p : Result E A × S) (s' : S) (a : A) → lifted f p ≡ (ok a, s') → p ≡ (ok a, s')
  unfolding lifted
  lifted-ok f (ok x, s) s' a h = ground arith
  lifted-ok f (err e, s) s' a h = absurd (ground arith)
