-- ===== src/Rng/Below.antt =====
-- `next_below` of runtime/ntl-core/src/rng.rs, Lemire's method: no value is favoured.
use ntl.Base.{
  ℕ, suc, ◌+◌, ◌-◌, ◌*◌, ◌/◌, ◌%◌, ◌^◌, ◌<◌, ◌≤◌, ◌≡◌, ◌↔◌, sym, ap, ◌∙◌, Bool, true, none, some,
  arith, leb, Bool-cases, inl, inr,
}
use ntl.Rng.{reject_loop, next_below}
use native.Mathlib.Nat.{
  div-lt_iff_lt-mul, mul-lt-mul_of_pos_right, mod-eq_of_lt, mod-eq-sub-mod, mod-lt, div-add-mod',
  mul-le-mul_right, le-div_iff_mul-le,
}

-- The least factor of `n` whose product reaches `a`.
ceil_iff : (a n y : ℕ) → 0 < n → (a ≤ y * n) ↔ ((a + n - 1) / n ≤ y)
ceil_iff a n y p =
    let (f, g) = div-lt_iff_lt-mul {k = n} {x = a + n - 1} {y = y + 1} p in
    let e : (y + 1) * n ≡ y * n + n = grind arith in
    (
      (λ h. let h' : a + n - 1 < (y + 1) * n = rw e (omega arith) in let z = g h' in omega arith),
      (λ h. let z = f (omega arith) in let z' : a + n - 1 < y * n + n = rw e at z in omega arith),
    )

shift_iff : (a n q x : ℕ) → 0 < n → (x * n < a + q * n) ↔ (x < (a + n - 1) / n + q)
shift_iff a n q x p = elim (Bool-cases (leb q x)) [
  | inl h ↦
      let y = x - q in
      let b : q ≤ x = ground arith in
      let e : x ≡ y + q = omega arith in
      let m : (y + q) * n ≡ y * n + q * n = grind arith in
      let (f, g) = ceil_iff a n y p in
      (
        (λ l. elim (Bool-cases (leb ((a + n - 1) / n) y)) [
          | inl z ↦
              let z' = g (ground arith) in
              let l' : y * n + q * n < a + q * n = rw (sym m, sym e) l in absurd (omega arith)
          | inr z ↦ let z' : y < (a + n - 1) / n = ground arith in omega arith
        ]),
        (λ l. elim (Bool-cases (leb a (y * n))) [
          | inl z ↦ let z' = f (ground arith) in absurd (omega arith)
          | inr z ↦
              let z' : y * n < a = ground arith in
              let l' : y * n + q * n < a + q * n = omega arith in rw (e, m) l'
        ]),
      )
  | inr h ↦
      let b : x < q = ground arith in
      let m = mul-lt-mul_of_pos_right {m = x} {n = q} {k = n} b p in
      ((λ l. omega arith), (λ l. omega arith))
]

-- The test of the loop, on one word.
abbrev accepts : ℕ → ℕ → Bool
accepts n x = leb ((2 ^ 64 - n) % 2 ^ 64 % n) (x * n % 2 ^ 64)

-- The first of the words that give `k`.
abbrev pub first_word : ℕ → ℕ → ℕ
first_word n k = (k * 2 ^ 64 + 2 ^ 64 % n + n - 1) / n

threshold_lem : (n : ℕ) → 0 < n → n < 2 ^ 64 → (2 ^ 64 - n) % 2 ^ 64 % n ≡ 2 ^ 64 % n
threshold_lem n p h =
    let small = mod-eq_of_lt {n = 2 ^ 64 - n} {m = 2 ^ 64} (omega arith) in
    ap (λ z. z % n) small ∙ sym (mod-eq-sub-mod {n = 2 ^ 64} {m = n} (omega arith))

-- The words that are accepted and scaled to `k` are the run of `2 ^ 64 / n` words from the first.
run_iff :
    (n k x : ℕ)
    → 0 < n
    → n < 2 ^ 64
    → ((accepts n x ≡ true) × (x * n / 2 ^ 64 ≡ k))
      ↔ ((first_word n k ≤ x) × (x < first_word n k + 2 ^ 64 / n))
run_iff n k x p h =
    let t = 2 ^ 64 % n in
    let whole = div-add-mod' (2 ^ 64) n in
    let e = threshold_lem n p h in
    let below = mod-lt (2 ^ 64) {m = n} p in
    let (f, g) = ceil_iff (k * 2 ^ 64 + t) n x p in
    let (i, j) = shift_iff (k * 2 ^ 64 + t) n (2 ^ 64 / n) x p in
    (
      (λ (a, b). let a' : t ≤ x * n % 2 ^ 64 = ground arith in (f (omega arith), i (omega arith))),
      (λ (a, b).
          let lo = g a in
          let hi = j b in
          let q : (2 ^ 64 - n) % 2 ^ 64 % n ≤ x * n % 2 ^ 64 = omega arith in
          (ground arith, omega arith)),
    )

-- The runs lie within the words.
run-le : (n k : ℕ) → n < 2 ^ 64 → k < n → first_word n k + 2 ^ 64 / n ≤ 2 ^ 64
run-le n k h l =
    let p : 0 < n = omega arith in
    let q = 2 ^ 64 / n in
    let pos_q : 1 ≤ q = (le-div_iff_mul-le {k = n} {x = 1} {y = 2 ^ 64} p).1 (omega arith) in
    let x = first_word n k + q - 1 in
    let (a, b) = (run_iff n k x p h).1 (omega arith, omega arith) in
    let m = mul-le-mul_right {m = 2 ^ 64} {n = x} n in
    elim (Bool-cases (leb (2 ^ 64) x)) [
      | inl z ↦ let z' = m (ground arith) in absurd (omega arith)
      | inr z ↦ let z' : x < 2 ^ 64 = ground arith in omega arith
    ]

module _ {R : Type 0} (next_u64 : R → ℕ × R) where
  one_draw :
      (n k : ℕ) (r : R)
      → 0 < n
      → ((next_below next_u64 1 r n).0 ≡ some k)
        ↔ ((accepts n (next_u64 r).0 ≡ true) × ((next_u64 r).0 * n / 2 ^ 64 ≡ k))
  unfolding next_below reject_loop
  one_draw n k r p = ground arith

  redraw :
      (fuel n : ℕ) (r : R)
      → (next_below next_u64 1 r n).0 ≡ none
      → (next_below next_u64 (suc fuel) r n).0 ≡ (next_below next_u64 fuel (next_u64 r).1 n).0
  unfolding next_below reject_loop
  redraw fuel n r h = ground arith

  -- No value below the bound is favoured: each is the answer for exactly `2 ^ 64 / n` of the words that a draw can
  -- give, a run of consecutive words that lies within 64 bits. A draw that gives no answer is taken again.
  pub next_below_uniform :
      (n k : ℕ)
      → n < 2 ^ 64
      → k < n
      → (first_word n k + 2 ^ 64 / n ≤ 2 ^ 64)
        × ((r : R)
            → ((next_below next_u64 1 r n).0 ≡ some k) ↔ (
                (first_word n k ≤ (next_u64 r).0) × ((next_u64 r).0 < first_word n k + 2 ^ 64 / n)))
        × ((fuel : ℕ) (r : R)
            → (next_below next_u64 1 r n).0 ≡ none
            → (next_below next_u64 (suc fuel) r n).0
              ≡ (next_below next_u64 fuel (next_u64 r).1 n).0)
  next_below_uniform n k h l =
      let p : 0 < n = omega arith in
      (
        run-le n k h l,
        (λ r.
            let (a, b) = one_draw n k r p in
            let (f, g) = run_iff n k (next_u64 r).0 p h in ((λ z. f (a z)), (λ z. b (g z)))),
        (λ fuel r. redraw fuel n r),
      )
