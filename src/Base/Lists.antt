-- ===== src/Base/Lists.antt =====
-- Lists measured and indexed by native numbers, and the predicates and folds that the parts share.
use Prim.Native.Nat.{ℕ, zero, suc, ◌+◌, ◌-◌, ◌≤◌, ◌<◌, min}
use mathlib.Core.Path.{◌≡◌, refl, ap}
use mathlib.Core.Logic.{inl, inr}
use mathlib.Core.Bool.{Bool, true, false, ◌&&◌, ◌||◌, Bool-set}
use mathlib.Core.List.{
  List, [], ◌∷◌, ◌++◌, map, Perm, Mem, mem-cons_self, mem-cons_of_mem, eq-or-mem_of_mem-cons,
  not-mem-nil,
}
use mathlib.Core.List.Perm
use mathlib.Core.Logic.Or
use mathlib.Core.Option.{Option, none, some}
use native.Mathlib.Omega.{arith}
use ntl.Base.Tests.{if◌then◌else◌, Bool-cases, leb}

module _ {ℓ} {A : Type ℓ} where
  abbrev pub length : List A → ℕ
  length [] = 0
  length (x ∷ xs) = suc (length xs)

  abbrev pub get_elem? : List A → ℕ → Option A
  get_elem? [] i = none
  get_elem? (x ∷ xs) zero = some x
  get_elem? (x ∷ xs) (suc i) = get_elem? xs i

  abbrev pub take : ℕ → List A → List A
  take zero xs = []
  take (suc n) [] = []
  take (suc n) (x ∷ xs) = x ∷ take n xs

  abbrev pub drop : ℕ → List A → List A
  drop zero xs = xs
  drop (suc n) [] = []
  drop (suc n) (x ∷ xs) = drop n xs

  -- `Vec::remove`: the vector without the element at an index.
  abbrev pub remove_at : ℕ → List A → List A
  remove_at i [] = []
  remove_at zero (x ∷ xs) = xs
  remove_at (suc i) (x ∷ xs) = x ∷ remove_at i xs

  -- `Iterator::filter` and `Iterator::any`, over a Boolean test.
  abbrev pub filter : (A → Bool) → List A → List A
  filter p [] = []
  filter p (x ∷ xs) = if p x then x ∷ filter p xs else filter p xs

  abbrev pub any : (A → Bool) → List A → Bool
  any p [] = false
  any p (x ∷ xs) = p x || any p xs

  -- `Iterator::find`.
  abbrev pub find : (A → Bool) → List A → Option A
  find p [] = none
  find p (x ∷ xs) = if p x then some x else find p xs

  abbrev pub get_or : List A → ℕ → A → A
  get_or [] i d = d
  get_or (x ∷ xs) zero d = x
  get_or (x ∷ xs) (suc i) d = get_or xs i d

  abbrev pub set : List A → ℕ → A → List A
  set [] i v = []
  set (x ∷ xs) zero v = v ∷ xs
  set (x ∷ xs) (suc i) v = x ∷ set xs i v

  -- `Vec::swap_remove`: the last element takes the place of the removed one. Out of bounds, where
  -- the source panics, there is no result.
  last_first : List A → List A
  last_first [] = []
  last_first (x ∷ []) = x ∷ []
  last_first (x ∷ y ∷ ys) = elim (last_first (y ∷ ys)) [ [] ↦ x ∷ [] | z ∷ zs ↦ z ∷ x ∷ zs ]

  unfoldable pub swap_remove : ℕ → List A → Option (A × List A)
  unfolding last_first
  swap_remove i [] = none
  swap_remove zero (x ∷ xs) = some (x, last_first xs)
  swap_remove (suc i) (x ∷ xs) = elim (swap_remove i xs) [
    | none ↦ none
    | some (y, ys) ↦ some (y, x ∷ ys)
  ]

  last_first-perm : (xs : List A) → Perm (last_first xs) xs
  unfolding last_first
  last_first-perm [] = Perm.rfl
  last_first-perm (x ∷ []) = Perm.rfl
  last_first-perm (x ∷ y ∷ ys) = swapped (last_first (y ∷ ys)) (last_first-perm (y ∷ ys))
    where
      swapped :
          (l : List A)
          → Perm l (y ∷ ys)
          → Perm (elim l as (λ m. List A) [ [] ↦ x ∷ [] | z ∷ zs ↦ z ∷ x ∷ zs ]) (x ∷ y ∷ ys)
      swapped [] p = Perm.cons x p
      swapped (z ∷ zs) p = Perm.trans (Perm.swap x z zs) (Perm.cons x p)

  length-last_first : (xs : List A) → length (last_first xs) ≡ length xs
  unfolding last_first
  length-last_first [] = refl
  length-last_first (x ∷ []) = refl
  length-last_first (x ∷ y ∷ ys) = rotated (last_first (y ∷ ys)) (length-last_first (y ∷ ys))
    where
      rotated :
          (l : List A)
          → length l ≡ suc (length ys)
          → length (elim l as (λ m. List A) [ [] ↦ x ∷ [] | z ∷ zs ↦ z ∷ x ∷ zs ])
            ≡ suc (suc (length ys))
      rotated [] e = omega arith
      rotated (z ∷ zs) e = omega arith

  -- Within bounds an element comes out, and the rest keeps all others.
  pub swap_remove-perm :
      (i : ℕ) (xs : List A)
      → i < length xs
      → (x : A) × (ys : List A) × (swap_remove i xs ≡ some (x, ys))
        × Perm (x ∷ ys) xs
        × (suc (length ys) ≡ length xs)
  unfolding swap_remove
  swap_remove-perm i [] h = absurd (omega arith)
  swap_remove-perm zero (x ∷ xs) h =
      (x, last_first xs, refl, Perm.cons x (last_first-perm xs), ap suc (length-last_first xs))
  swap_remove-perm (suc i) (x ∷ xs) h =
      let (y, ys, e, p, n) = swap_remove-perm i xs (omega arith) in
      (y, x ∷ ys, rw e, Perm.trans (Perm.swap x y ys) (Perm.cons x p), ap suc n)

  abbrev pub is_empty : List A → Bool
  is_empty [] = true
  is_empty (x ∷ xs) = false

  abbrev pub All {κ} : (A → Type κ) → List A → Type κ
  All P [] = Unit
  All P (x ∷ xs) = P x × All P xs

  pub length-append : (xs ys : List A) → length (xs ++ ys) ≡ length xs + length ys
  length-append [] ys = omega arith
  length-append (x ∷ xs) ys = omega (arith, length-append xs ys)

  pub take-append-drop : (n : ℕ) (xs : List A) → take n xs ++ drop n xs ≡ xs
  take-append-drop zero xs = refl
  take-append-drop (suc n) [] = refl
  take-append-drop (suc n) (x ∷ xs) = ap (◌∷◌ x) (take-append-drop n xs)

  pub length-take : (n : ℕ) (xs : List A) → length (take n xs) ≡ min n (length xs)
  length-take zero xs = omega arith
  length-take (suc n) [] = omega arith
  length-take (suc n) (x ∷ xs) = omega (arith, length-take n xs)

  pub length-drop : (n : ℕ) (xs : List A) → length (drop n xs) ≡ length xs - n
  length-drop zero xs = omega arith
  length-drop (suc n) [] = omega arith
  length-drop (suc n) (x ∷ xs) = omega (arith, length-drop n xs)

  pub length-remove_at :
      (i : ℕ) (xs : List A) → i < length xs → suc (length (remove_at i xs)) ≡ length xs
  length-remove_at i [] h = absurd (omega arith)
  length-remove_at zero (x ∷ xs) h = refl
  length-remove_at (suc i) (x ∷ xs) h = ap suc (length-remove_at i xs (omega arith))

  pub remove_at-perm :
      (i : ℕ) (xs : List A) (x : A) → get_elem? xs i ≡ some x → Perm xs (x ∷ remove_at i xs)
  remove_at-perm i [] x e = absurd (cc)
  remove_at-perm zero (y ∷ ys) x e = Perm.cons' (ground arith) Perm.rfl
  remove_at-perm (suc i) (y ∷ ys) x e =
      Perm.trans (Perm.cons y (remove_at-perm i ys x e)) (Perm.swap x y (remove_at i ys))

  pub length-filter-le : (p : A → Bool) (xs : List A) → length (filter p xs) ≤ length xs
  length-filter-le p [] = omega arith
  length-filter-le p (x ∷ xs) = ground (arith, length-filter-le p xs)

module _ {ℓ κ} {A : Type ℓ} (P : A → Type κ) where
  pub All-append : (xs ys : List A) → All P xs → All P ys → All P (xs ++ ys)
  All-append [] ys p q = q
  All-append (x ∷ xs) ys (p, ps) q = (p, All-append xs ys ps q)

  pub All-remove_at : (i : ℕ) (xs : List A) → All P xs → All P (remove_at i xs)
  All-remove_at i [] p = p
  All-remove_at zero (x ∷ xs) (p, ps) = ps
  All-remove_at (suc i) (x ∷ xs) (p, ps) = (p, All-remove_at i xs ps)

  pub All-take : (n : ℕ) (xs : List A) → All P xs → All P (take n xs)
  All-take zero xs p = tt
  All-take (suc n) [] p = tt
  All-take (suc n) (x ∷ xs) (p, ps) = (p, All-take n xs ps)

  pub All-drop : (n : ℕ) (xs : List A) → All P xs → All P (drop n xs)
  All-drop zero xs p = p
  All-drop (suc n) [] p = tt
  All-drop (suc n) (x ∷ xs) (p, ps) = All-drop n xs ps

  -- What every element of a list has, every element of a sublist picked by a test has.
  pub All-filter : (t : A → Bool) (xs : List A) → All P xs → All P (filter t xs)
  All-filter t [] p = tt
  All-filter t (x ∷ xs) (p, ps) = elim (Bool-cases (t x)) [
    | inl e ↦ rw e (p, All-filter t xs ps)
    | inr e ↦ rw e (All-filter t xs ps)
  ]

  pub All-map {μ} : {Q : A → Type μ} → ((a : A) → P a → Q a) → (xs : List A) → All P xs → All Q xs
  All-map f [] p = tt
  All-map f (x ∷ xs) (p, ps) = (f x p, All-map f xs ps)

pub length-map {ℓ κ} :
    {A : Type ℓ} {B : Type κ} (f : A → B) (xs : List A) → length (map f xs) ≡ length xs
length-map f [] = refl
length-map f (x ∷ xs) = ap suc (length-map f xs)

-- Writing over an element takes the old one out and puts the new one in.
pub set-perm {ℓ} :
    {A : Type ℓ} (xs : List A) (i : ℕ) (v : A)
    → i < length xs
    → (x : A) × Perm (x ∷ set xs i v) (v ∷ xs)
set-perm [] i v h = absurd (omega arith)
set-perm (x ∷ xs) zero v h = (x, Perm.swap v x xs)
set-perm (x ∷ xs) (suc i) v h =
    let (y, p) = set-perm xs i v (omega arith) in
    (y, Perm.trans (Perm.swap x y (set xs i v)) (Perm.trans (Perm.cons x p) (Perm.swap v x xs)))

pub length-set {ℓ} : {A : Type ℓ} (xs : List A) (i : ℕ) (v : A) → length (set xs i v) ≡ length xs
length-set [] i v = refl
length-set (x ∷ xs) zero v = refl
length-set (x ∷ xs) (suc i) v = ap suc (length-set xs i v)

pub get_elem?-some {ℓ} :
    {A : Type ℓ} (xs : List A) (i : ℕ) → i < length xs → (x : A) × (get_elem? xs i ≡ some x)
get_elem?-some [] i h = absurd (omega arith)
get_elem?-some (x ∷ xs) zero h = (x, refl)
get_elem?-some (x ∷ xs) (suc i) h = get_elem?-some xs i (omega arith)

-- `Iterator::all`
abbrev pub all {ℓ} : {A : Type ℓ} → (A → Bool) → List A → Bool
all p [] = true
all p (x ∷ xs) = p x && all p xs

pub all-append {ℓ} :
    {A : Type ℓ} (p : A → Bool) (xs ys : List A) → all p (xs ++ ys) ≡ (all p xs && all p ys)
all-append p [] ys = refl
all-append p (x ∷ xs) ys = ground (arith, all-append p xs ys)

all-mem {ℓ} :
    {A : Type ℓ} (p : A → Bool) {a : A} (xs : List A) → all p xs ≡ true → Mem a xs → p a ≡ true
all-mem p [] h m = absurd (not-mem-nil m)
all-mem p {a} (x ∷ xs) h m =
    Or.elim (Bool-set (p a) true) (eq-or-mem_of_mem-cons m) (λ e. ground (arith, ap p e))
      (λ n. all-mem p xs (ground arith) n)

mem-all {ℓ} :
    {A : Type ℓ} (p : A → Bool) (xs : List A) → ((a : A) → Mem a xs → p a ≡ true) → all p xs ≡ true
mem-all p [] h = refl
mem-all p (x ∷ xs) h =
    ground (arith, h x mem-cons_self, mem-all p xs (λ a m. h a (mem-cons_of_mem x m)))

-- A test that all elements pass, all elements of a rearrangement pass.
pub all-Perm {ℓ} :
    {A : Type ℓ} (p : A → Bool) {xs ys : List A} → Perm xs ys → all p ys ≡ true → all p xs ≡ true
all-Perm p {xs} {ys} d h = mem-all p xs (λ a m. all-mem p ys h ((Perm.mem_iff d).0 m))

-- `(from..from + n).collect()`
abbrev pub range_from : ℕ → ℕ → List ℕ
range_from from zero = []
range_from from (suc n) = from ∷ range_from (from + 1) n

abbrev pub range : ℕ → List ℕ
range n = range_from 0 n

pub length-range_from : (from n : ℕ) → length (range_from from n) ≡ n
length-range_from from zero = refl
length-range_from from (suc n) = ap suc (length-range_from (from + 1) n)

range_from-below :
    (from n m : ℕ) → from + n ≤ m → all (λ i. leb (suc i) m) (range_from from n) ≡ true
range_from-below from zero m h = refl
range_from-below from (suc n) m h = ground (arith, range_from-below (from + 1) n m (omega arith))

pub range-below : (n : ℕ) → all (λ i. leb (suc i) n) (range n) ≡ true
range-below n = range_from-below 0 n n (omega arith)
