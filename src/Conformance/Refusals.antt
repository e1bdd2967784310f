-- ===== src/Conformance/Refusals.antt =====
-- How a run of the suite of runtime/ntl-core/src/store/conformance.rs ends with a refusal.
use ntl.Base.{
  ◌≡◌, refl, ap, sym, subst, arith, Bool, true, false, Option, none, some, String, ok, err,
}
use ntl.Store.{Read}
use ntl.Node.Monad.{Act, ◌>>=◌, >>=-ok}
use ntl.Conformance.{expect, expect_read, present, assert, expected}

module _ {S : Type 0} where
  -- The run does not end well from this state.
  pub record Refuses {B : Type 0} (m : Act S String B) (s : S) : Type 0 where
    pub refused : (b : B) (s' : S) → m s ≡ (ok b, s') → ⊥

  expected-ok :
      {A : Type 0} (message : String) (p : Read A × S) (a : A) (s' : S)
      → expected message p ≡ (ok a, s')
      → p ≡ (ok a, s')
  expected-ok message (ok x, s) a s' e = ground arith
  expected-ok message (err x, s) a s' e = absurd (ground arith)

  present-ok :
      {A : Type 0} (message : String) (o : Option A) (a : A) (s s' : S)
      → present message o s ≡ (ok a, s')
      → (o ≡ some a) × (s' ≡ s)
  unfolding present
  present-ok message none a s s' e = absurd (ground arith)
  present-ok message (some x) a s s' e = (ground arith, ground arith)

  assert-ok :
      (b : Bool) (message : String) (u : Unit {0}) (s s' : S)
      → assert b message s ≡ (ok u, s')
      → (b ≡ true) × (s' ≡ s)
  unfolding assert
  assert-ok true message u s s' e = (refl, ground arith)
  assert-ok false message u s s' e = absurd (ground arith)

  module _ {A B : Type 0} where
    pub Refuses-first :
        (m : Act S String A) (f : A → Act S String B) {s : S} → Refuses m s → Refuses (m >>= f) s
    Refuses-first m f {s = s} r = record {
      refused = λ b s' e. let (a, s₁, e₁, e₂) = >>=-ok m f s s' b e in r.refused a s₁ e₁;
    }

    pub Refuses-then :
        (m : Act S String A) (f : A → Act S String B) {s : S}
        → ((a : A) (s₁ : S) → m s ≡ (ok a, s₁) → Refuses (f a) s₁)
        → Refuses (m >>= f) s
    Refuses-then m f {s = s} k = record {
      refused = λ b s' e. let (a, s₁, e₁, e₂) = >>=-ok m f s s' b e in (k a s₁ e₁).refused b s' e₂;
    }

    pub Refuses-next :
        (m : Act S String A) (f : A → Act S String B) {s : S}
        → ((a : A) (s₁ : S) → Refuses (f a) s₁)
        → Refuses (m >>= f) s
    Refuses-next m f k = Refuses-then m f (λ a s₁ e. k a s₁)

    pub Refuses-expect :
        (message : String) (m : S → Read A × S) {f : A → Act S String B} {s : S}
        → ((a : A) (s₁ : S) → m s ≡ (ok a, s₁) → Refuses (f a) s₁)
        → Refuses (expect message m >>= f) s
    unfolding expect
    Refuses-expect message m {f = f} {s = s} k =
        Refuses-then (expect message m) f (λ a s₁ e. k a s₁ (expected-ok message (m s) a s₁ e))

    -- A read leaves the state as it is.
    pub Refuses-read :
        (message : String) (m : S → Read A) {f : A → Act S String B} {s : S}
        → ((a : A) → m s ≡ ok a → Refuses (f a) s)
        → Refuses (expect_read message m >>= f) s
    unfolding expect_read
    Refuses-read message m {f = f} {s = s} k = Refuses-then (expect_read message m) f (λ a s₁ e.
        let q = expected-ok message (m s, s) a s₁ e in
        subst (λ t. Refuses (f a) t) (ap (λ p. p.1) q) (k a (ap (λ p. p.0) q)))

    pub Refuses-present :
        (message : String) (o : Option A) {f : A → Act S String B} {s : S}
        → ((a : A) → o ≡ some a → Refuses (f a) s)
        → Refuses (present message o >>= f) s
    Refuses-present message o {f = f} {s = s} k = Refuses-then (present message o) f (λ a s₁ e.
        let (q, r) = present-ok message o a s s₁ e in subst (λ t. Refuses (f a) t) (sym r) (k a q))

  pub Refuses-assert :
      {B : Type 0} (b : Bool) (message : String) {f : Unit {0} → Act S String B} {s : S}
      → ((u : Unit {0}) → b ≡ true → Refuses (f u) s)
      → Refuses (assert b message >>= f) s
  Refuses-assert b message {f = f} {s = s} k = Refuses-then (assert b message) f (λ u s₁ e.
      let (q, r) = assert-ok b message u s s₁ e in subst (λ t. Refuses (f u) t) (sym r) (k u q))

  pub Refuses-false :
      (b : Bool) (message : String) {s : S} → b ≡ false → Refuses (assert b message) s
  Refuses-false b message {s = s} no_ = record {
    refused = λ u s' e. let (q, r) = assert-ok b message u s s' e in absurd (ground arith);
  }

  pub Refuses-absurd : {B : Type 0} (m : Act S String B) {s : S} → ⊥ → Refuses m s
  Refuses-absurd m x = absurd x
