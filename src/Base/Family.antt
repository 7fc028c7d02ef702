-- ===== src/Base/Family.antt =====
-- Functions of an index (a thread, an address): one place changed, and sums of weights.
use Prim.Native.Nat.{ℕ, zero, suc, ◌+◌, ◌≤◌, ◌<◌}
use mathlib.Core.Path.{◌≡◌, refl, ap}
use mathlib.Core.Logic.{ite, if_neg, ◌≢◌}
use native.Mathlib.Decide.{dec_lt, ℕ_discrete}
use native.Mathlib.Omega.{arith}

-- `place[k] = new`
abbrev pub update {ℓ} : {B : Type ℓ} (place : ℕ → B) (k : ℕ) (new : B) → ℕ → B
update place k new = λ j. ite (ℕ_discrete k j) new (place j)

module _ {ℓ} {B : Type ℓ} (weight : B → ℕ) where
  -- The weights of the first `n` places.
  pub total : ℕ → (ℕ → B) → ℕ
  total zero place = 0
  total (suc n) place = weight (place n) + total n place

  total_above :
      (n k : ℕ) (place : ℕ → B) (new : B) → n ≤ k → total n place ≡ total n (update place k new)
  unfolding total
  total_above zero k place new above = refl
  total_above (suc n) k place new above = ground (arith, total_above n k place new)

  pub total-update :
      (n k : ℕ) (place : ℕ → B) (new : B)
      → k < n
      → weight new + total n place ≡ weight (place k) + total n (update place k new)
  unfolding total
  total-update zero k place new lt = elim lt [ ]
  total-update (suc n) k place new lt = elim (dec_lt k n) [
    | no last ↦ ground (arith, total_above n k place new)
    | yes before ↦ ground (arith, total-update n k place new before)
  ]

  pub le-total : (n k : ℕ) (place : ℕ → B) → k < n → weight (place k) ≤ total n place
  unfolding total
  le-total zero k place lt = elim lt [ ]
  le-total (suc n) k place lt = elim (dec_lt k n) [
    | no last ↦ ground arith
    | yes before ↦ omega (arith, le-total n k place before)
  ]

  pub total_const : (n : ℕ) (a : B) → weight a ≡ 0 → total n (λ _. a) ≡ 0
  unfolding total
  total_const zero a light = refl
  total_const (suc n) a light = omega (arith, total_const n a light)

  -- A sum that is not 0 has a part that is not.
  pub total_some : (n : ℕ) (place : ℕ → B) → total n place ≢ 0 → (k : ℕ) × (weight (place k) ≢ 0)
  unfolding total
  total_some zero place some_weight = absurd (some_weight refl)
  total_some (suc n) place some_weight = elim (ℕ_discrete (weight (place n)) 0) [
    | yes light ↦ total_some n place (λ e. some_weight (omega arith))
    | no heavy ↦ (n, heavy)
  ]

  pub total_below :
      (n : ℕ) (place : ℕ → B) → 0 < total n place → (k : ℕ) × (k < n) × (0 < weight (place k))
  unfolding total
  total_below zero place some_weight = elim some_weight [ ]
  total_below (suc n) place some_weight = elim (dec_lt 0 (weight (place n))) [
    | yes heavy ↦ (n, omega arith, heavy)
    | no light ↦ let (k, lt, heavy) = total_below n place (omega arith) in (k, omega arith, heavy)
  ]

  -- Two different places are both counted; `blank` is any value without weight.
  pub two-total :
      (n i j : ℕ) (place : ℕ → B) (blank : B)
      → weight blank ≡ 0
      → i < n
      → j < n
      → i ≢ j
      → weight (place i) + weight (place j) ≤ total n place
  two-total n i j place blank light lt lt' apart =
      let sum = total-update n i place blank lt in
      let least = le-total n j (update place i blank) lt' in
      let other : weight (update place i blank j) ≡ weight (place j) =
        ap weight (if_neg (ℕ_discrete i j) apart blank (place j)) in
      omega (arith, sum, least, other, light)
