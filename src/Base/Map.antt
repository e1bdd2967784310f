-- ===== src/Base/Map.antt =====
-- `HashMap` as an association list with one entry for a key. The order of the list stands for the
-- unspecified order of iteration.
use ntl.Base.Tests.{if◌then◌else◌, PartialEq, ◌==◌, eqb_refl}
use mathlib.Core.List.{List, [], ◌∷◌}
use mathlib.Core.Option.{Option, none, some}
use mathlib.Core.Path.{◌≡◌, refl}
use native.Mathlib.Omega.{arith}

module _ {ℓ κ} {K : Type ℓ} {V : Type κ} where
  abbrev pub values : List (K × V) → List V
  values [] = []
  values ((j, w) ∷ m) = w ∷ values m

module _ {ℓ κ} {K : Type ℓ} {V : Type κ} ⦃e : PartialEq K⦄ where
  unfoldable pub get : K → List (K × V) → Option V
  get key [] = none
  get key ((k, value) ∷ rest) = if k == key then some value else get key rest

  unfoldable pub insert : K → V → List (K × V) → List (K × V)
  insert key value [] = (key, value) ∷ []
  insert key value ((k, old) ∷ rest) =
      if k == key then (k, value) ∷ rest else (k, old) ∷ insert key value rest

  unfoldable pub remove : K → List (K × V) → List (K × V)
  remove key [] = []
  remove key ((k, value) ∷ rest) =
      if k == key then remove key rest else (k, value) ∷ remove key rest

  -- A read after a write sees the new value at the written key, and the old one elsewhere.
  pub get-insert :
      (key asked : K) (value : V) (entries : List (K × V))
      → get asked (insert key value entries)
        ≡ (if key == asked then some value else get asked entries)
  unfolding get insert
  get-insert key asked value [] = refl
  get-insert key asked value ((k, old) ∷ rest) = ground (
    arith,
    get-insert key asked value rest,
    e.eqb_iff k asked,
    e.eqb_iff key asked,
    e.eqb_iff k key,
  )

  pub get-insert_self :
      (key : K) (value : V) (entries : List (K × V))
      → get key (insert key value entries) ≡ some value
  get-insert_self key value entries = rw (get-insert key key value entries, eqb_refl key)

  -- A removed key has no value, and the others keep theirs.
  pub get-remove :
      (key asked : K) (entries : List (K × V))
      → get asked (remove key entries) ≡ (if key == asked then none else get asked entries)
  unfolding get remove
  get-remove key asked [] = ground arith
  get-remove key asked ((k, value) ∷ rest) =
      ground
        (arith, get-remove key asked rest, e.eqb_iff k asked, e.eqb_iff key asked, e.eqb_iff k key)
