-- ===== src/Base/Sort.antt =====
-- `slice::sort_by`, a stable sort, for a comparator given as "not greater": insertion keeps equal
-- elements in their order, so on a total preorder the result is the one of every stable sort.
use mathlib.Core.List.Perm
use ntl.Base.Tests.{if◌then◌else◌, Bool-cases}
use ntl.Base.Lists.{All, length, take, drop, All-drop, All-take}
use Prim.Native.Nat.{ℕ, zero, suc}
use mathlib.Core.Logic.{inl, inr}
use mathlib.Core.List.{List, [], ◌∷◌, Perm}
use mathlib.Core.Bool.{Bool, true, false}
use mathlib.Core.Path.{◌≡◌, refl, ap, ◌∙◌}
use native.Mathlib.Omega.{arith}

module _ {ℓ} {A : Type ℓ} (le : A → A → Bool) where
  pub insert : A → List A → List A
  insert x [] = x ∷ []
  insert x (y ∷ ys) = if le x y then x ∷ y ∷ ys else y ∷ insert x ys

  unfoldable pub sort_by : List A → List A
  unfolding insert
  sort_by [] = []
  sort_by (x ∷ xs) = insert x (sort_by xs)

  insert-perm : (x : A) (ys : List A) → Perm (insert x ys) (x ∷ ys)
  unfolding insert
  insert-perm x [] = Perm.rfl
  insert-perm x (y ∷ ys) = elim (Bool-cases (le x y)) [
    | inl e ↦ rw e Perm.rfl
    | inr e ↦ rw e (Perm.trans (Perm.cons y (insert-perm x ys)) (Perm.swap x y ys))
  ]

  -- Sorting rearranges the elements and loses none.
  pub sort_by-perm : (xs : List A) → Perm (sort_by xs) xs
  unfolding sort_by
  sort_by-perm [] = Perm.rfl
  sort_by-perm (x ∷ xs) = Perm.trans (insert-perm x (sort_by xs)) (Perm.cons x (sort_by-perm xs))

  length-insert : (x : A) (ys : List A) → length (insert x ys) ≡ suc (length ys)
  unfolding insert
  length-insert x [] = refl
  length-insert x (y ∷ ys) = ground (arith, length-insert x ys)

  pub length-sort_by : (xs : List A) → length (sort_by xs) ≡ length xs
  unfolding sort_by
  length-sort_by [] = refl
  length-sort_by (x ∷ xs) = length-insert x (sort_by xs) ∙ ap suc (length-sort_by xs)

  -- Every element is in order with every later one.
  abbrev pub IsSorted : List A → Type 0
  IsSorted [] = Unit
  IsSorted (x ∷ xs) = All (λ y. le x y ≡ true) xs × IsSorted xs

  module _ {κ} (P : A → Type κ) where
    insert-All : (x : A) (ys : List A) → P x → All P ys → All P (insert x ys)
    unfolding insert
    insert-All x [] p q = (p, q)
    insert-All x (y ∷ ys) p (q, qs) = elim (Bool-cases (le x y)) [
      | inl e ↦ rw e (p, (q, qs))
      | inr e ↦ rw e (q, insert-All x ys p qs)
    ]

    pub sort_by-All : (xs : List A) → All P xs → All P (sort_by xs)
    unfolding sort_by
    sort_by-All [] p = tt
    sort_by-All (x ∷ xs) (p, ps) = insert-All x (sort_by xs) p (sort_by-All xs ps)

-- A comparator that is a total preorder on the elements that meet P.
pub record IsTotal {ℓ κ} {A : Type ℓ} (P : A → Type κ) (le : A → A → Bool) : Type (ℓ ⊔ κ) where
  pub total : (a b : A) → P a → P b → le a b ≡ false → le b a ≡ true
  pub trans : (a b c : A) → P a → P b → P c → le a b ≡ true → le b c ≡ true → le a c ≡ true

module _ {ℓ κ} {A : Type ℓ} {P : A → Type κ} {le : A → A → Bool} (t : IsTotal P le) where
  below-All :
      (x y : A) (ys : List A)
      → P x
      → P y
      → All P ys
      → le x y ≡ true
      → All (λ z. le y z ≡ true) ys
      → All (λ z. le x z ≡ true) ys
  below-All x y [] p q qs h a = tt
  below-All x y (z ∷ zs) p q (r, rs) h (a, as') =
      (t.trans x y z p q r h a, below-All x y zs p q rs h as')

  insert-IsSorted :
      (x : A) (ys : List A) → P x → All P ys → IsSorted le ys → IsSorted le (insert le x ys)
  unfolding insert
  insert-IsSorted x [] p ps s = (tt, tt)
  insert-IsSorted x (y ∷ ys) p (q, qs) (a, s) = elim (Bool-cases (le x y)) [
    | inl e ↦ rw (e, insert) ((e, below-All x y ys p q qs e a), (a, s))
    | inr e ↦
        rw (e, insert)
          (
            insert-All le (λ z. le y z ≡ true) x ys (t.total x y p q e) a,
            insert-IsSorted x ys p qs s,
          )
  ]

  -- The result of a sort is in order.
  pub sort_by-IsSorted : (xs : List A) → All P xs → IsSorted le (sort_by le xs)
  unfolding sort_by
  sort_by-IsSorted [] ps = tt
  sort_by-IsSorted (x ∷ xs) (p, ps) =
      insert-IsSorted x (sort_by le xs) p (sort_by-All le P xs ps) (sort_by-IsSorted xs ps)

module _ {ℓ} {A : Type ℓ} (le : A → A → Bool) where
  -- In a sorted list each of the first elements is in order with each of the rest.
  pub take-drop-IsSorted :
      (n : ℕ) (xs : List A)
      → IsSorted le xs
      → All (λ a. All (λ b. le a b ≡ true) (drop n xs)) (take n xs)
  take-drop-IsSorted zero xs s = tt
  take-drop-IsSorted (suc n) [] s = tt
  take-drop-IsSorted (suc n) (x ∷ xs) (a, s) =
      (All-drop (λ b. le x b ≡ true) n xs a, take-drop-IsSorted n xs s)

  pub take-IsSorted : (n : ℕ) (xs : List A) → IsSorted le xs → IsSorted le (take n xs)
  take-IsSorted zero xs s = tt
  take-IsSorted (suc n) [] s = tt
  take-IsSorted (suc n) (x ∷ xs) (a, s) =
      (All-take (λ b. le x b ≡ true) n xs a, take-IsSorted n xs s)
