-- ===== src/Base/Segment.antt =====
-- Parts of arrays, measured by a weight of their entries, and the removal of an entry by moving the
-- last one into its place, which the socket tables of the servers have in common.
use Prim.Native.Nat.{ℕ, zero, suc, ◌+◌, ◌-◌, ◌<◌, ◌≤◌}
use mathlib.Core.Path.{◌≡◌, refl, ap, ap₂}
use mathlib.Core.Logic.{◌⊎◌, inl, inr}
use mathlib.Core.Bool.{true, false}
use mathlib.Core.List.{List}
use native.Mathlib.Omega.{arith}
use native.Mathlib.Decide.{ℕ_discrete}
use temp.Base.Tests.{◌==◌, if◌then◌else◌}
use temp.Base.Lists.{length, get_or, set, length-set, get_or-set_self, get_or-set_ne}

module _ {ℓ} {A : Type ℓ} (d : A) where
  -- `arr[i] = arr[n - 1]` unless `i` is the last place.
  abbrev pub move_last : List A → ℕ → ℕ → List A
  move_last arr i n = if i == n - 1 then arr else set arr i (get_or arr (n - 1) d)

  pub length-move_last : (arr : List A) (i n : ℕ) → length (move_last arr i n) ≡ length arr
  length-move_last arr i n = ground (arith, length-set arr i (get_or arr (n - 1) d))

  module _ (w : A → ℕ) where
    -- The weight of the `n` entries from `i` on.
    abbrev pub weight : List A → ℕ → ℕ → ℕ
    weight arr i zero = 0
    weight arr i (suc n) = w (get_or arr i d) + weight arr (i + 1) n

    pub weight-set_outside :
        (arr : List A) (i n k : ℕ) (v : A)
        → (k < i) ⊎ (i + n ≤ k)
        → weight (set arr k v) i n ≡ weight arr i n
    weight-set_outside arr i zero k v o = refl
    weight-set_outside arr i (suc n) k v o =
        ap₂ (λ x r. w x + r) (get_or-set_ne arr k i v d (omega arith))
          (weight-set_outside arr (i + 1) n k v (shift o))
      where
        shift : (k < i) ⊎ (i + suc n ≤ k) → (k < i + 1) ⊎ (i + 1 + n ≤ k)
        shift (inl l) = inl (omega arith)
        shift (inr l) = inr (omega arith)

    pub weight-set :
        (arr : List A) (i n k : ℕ) (v : A)
        → i ≤ k
        → k < i + n
        → k < length arr
        → weight (set arr k v) i n + w (get_or arr k d) ≡ weight arr i n + w v
    weight-set arr i zero k v h g l = absurd (omega arith)
    weight-set arr i (suc n) k v h g l = elim (ℕ_discrete i k) [
      | yes e ↦
          let here : get_or (set arr k v) i d ≡ v = rw e (get_or-set_self arr k v d l) in
          let rest : weight (set arr k v) (i + 1) n ≡ weight arr (i + 1) n =
            weight-set_outside arr (i + 1) n k v (inl (omega arith)) in
          let at : w (get_or arr i d) ≡ w (get_or arr k d) = ap (λ m. w (get_or arr m d)) e in
          omega (arith, ap w here, rest, at)
      | no ne ↦ omega (
        arith,
        ap w (get_or-set_ne arr k i v d (λ e. ne (omega arith))),
        weight-set arr (i + 1) n k v (omega arith) (omega arith) l,
      )
    ]

    pub weight_snoc :
        (arr : List A) (i n : ℕ) → weight arr i (suc n) ≡ weight arr i n + w (get_or arr (i + n) d)
    weight_snoc arr i zero =
        let e : i + 0 ≡ i = omega arith in omega (arith, ap (λ m. w (get_or arr m d)) e)
    weight_snoc arr i (suc n) =
        let e : i + suc n ≡ i + 1 + n = omega arith in
        omega (arith, weight_snoc arr (i + 1) n, ap (λ m. w (get_or arr m d)) e)

    -- Moving the last of `n` entries to place `i` takes just the entry at `i` out of their weight.
    pub weight-move_last :
        (arr : List A) (i n j : ℕ)
        → j ≤ i
        → i < n
        → n ≤ length arr
        → weight (move_last arr i n) j (n - 1 - j) + w (get_or arr i d) ≡ weight arr j (n - j)
    weight-move_last arr i n j h g l =
        let size : n - j ≡ suc (n - 1 - j) = omega arith in
        let last : j + (n - 1 - j) ≡ n - 1 = omega arith in
        let snoc = weight_snoc arr j (n - 1 - j) in
        let at = ap (λ m. w (get_or arr m d)) last in
        let grow = ap (weight arr j) size in
        elim (ℕ_discrete i (n - 1)) [
          | yes e ↦
              let same : (i == n - 1) ≡ true = ground arith in
              rw same (omega (arith, snoc, at, grow, ap (λ m. w (get_or arr m d)) e))
          | no e ↦
              let other : (i == n - 1) ≡ false = ground arith in
              rw other (
                omega (
                  arith,
                  snoc,
                  at,
                  grow,
                  weight-set arr j (n - 1 - j) i (get_or arr (n - 1) d) h (omega arith)
                      (omega arith),
                ))
        ]

    -- One entry, and two different ones, weigh no more than all.
    pub le-weight :
        (arr : List A) (i n k : ℕ) → i ≤ k → k < i + n → w (get_or arr k d) ≤ weight arr i n
    le-weight arr i zero k h g = absurd (omega arith)
    le-weight arr i (suc n) k h g = elim (ℕ_discrete i k) [
      | yes e ↦ omega (arith, ap (λ m. w (get_or arr m d)) e)
      | no ne ↦ omega (arith, le-weight arr (i + 1) n k (omega arith) (omega arith))
    ]

    pub two-le-weight :
        (arr : List A) (i n k m : ℕ)
        → i ≤ k
        → k < m
        → m < i + n
        → w (get_or arr k d) + w (get_or arr m d) ≤ weight arr i n
    two-le-weight arr i zero k m h g l = absurd (omega arith)
    two-le-weight arr i (suc n) k m h g l = elim (ℕ_discrete i k) [
      | yes e ↦ omega (
        arith,
        ap (λ p. w (get_or arr p d)) e,
        le-weight arr (i + 1) n m (omega arith) (omega arith),
      )
      | no ne ↦ omega (arith, two-le-weight arr (i + 1) n k m (omega arith) g (omega arith))
    ]

  pub weight_mono :
      (v w : A → ℕ) (arr : List A) (i n : ℕ)
      → ((a : A) → v a ≤ w a)
      → weight v arr i n ≤ weight w arr i n
  weight_mono v w arr i zero h = omega arith
  weight_mono v w arr i (suc n) h =
      omega (arith, h (get_or arr i d), weight_mono v w arr (i + 1) n h)

  -- Storing an entry just behind the `n` first ones adds its weight to theirs.
  pub weight_push :
      (w : A → ℕ) (arr : List A) (n : ℕ) (v : A)
      → n < length arr
      → weight w (set arr n v) 0 (n + 1) ≡ weight w arr 0 n + w v
  weight_push w arr n v h =
      let size : n + 1 ≡ suc n = omega arith in
      let at : 0 + n ≡ n = omega arith in
      omega (
        arith,
        ap (weight w (set arr n v) 0) size,
        weight_snoc w (set arr n v) 0 n,
        weight-set_outside w arr 0 n n v (inr (omega arith)),
        ap (λ m. w (get_or (set arr n v) m d)) at,
        ap w (get_or-set_self arr n v d h),
      )

  pub weight-eq-zero :
      (w : A → ℕ) (arr : List A) (i n : ℕ)
      → ((k : ℕ) → i ≤ k → k < i + n → w (get_or arr k d) ≡ 0)
      → weight w arr i n ≡ 0
  weight-eq-zero w arr i zero h = refl
  weight-eq-zero w arr i (suc n) h = omega (
    arith,
    h i (omega arith) (omega arith),
    weight-eq-zero w arr (i + 1) n (λ k lo hi. h k (omega arith) (omega arith)),
  )
