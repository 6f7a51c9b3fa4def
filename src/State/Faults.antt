-- ===== src/State/Faults.antt =====
-- The list of faulted axes is the fault bitmap.
use native.Mathlib.Nat.{div-div-eq-div-mul, div-add-mod, mul_comm, pow-suc, one-le-pow}
use litearm_cpp.Base.{
  ap, sym, ◌∙◌, ◌↔◌, ℕ, zero, suc, ◌+◌, ◌*◌, ◌/◌, ◌%◌, ◌^◌, ◌≤◌, ◌<◌, ◌≡◌, ◌≢◌, refl, subst, List,
  [], ◌∷◌, arith, bit_at, Bool-cases, true, inl, inr,
}
use litearm_cpp.State.{RobotState, axes_from, fault_axes, drop_hold_inferred}

-- The bitmap that a list of axes stands for.
abbrev pub bitmap : List ℕ → ℕ
bitmap [] = 0
bitmap (axis ∷ axes) = 2 ^ axis + bitmap axes

mod-double : (v p : ℕ) → v % (p * 2) ≡ v % p + v / p % 2 * p
mod-double v p =
    let halved : v / p / 2 ≡ v / (p * 2) = div-div-eq-div-mul v p 2 in
    let whole = div-add-mod v (p * 2) in
    let parts = div-add-mod v p in
    let half = div-add-mod (v / p) 2 in
    let spread : p * (v / p) ≡ p * 2 * (v / (p * 2)) + v / p % 2 * p =
      ap (λ (n : ℕ). p * n) (sym half) ∙ grind (arith, halved) in
    omega (arith, whole, parts, spread)

power-suc : (i : ℕ) → 2 ^ (i + 1) ≡ 2 ^ i * 2
power-suc i = let next : i + 1 ≡ suc i = omega arith in ap (λ (n : ℕ). 2 ^ n) next ∙ pow-suc 2 i

-- The axes from `i` on, the bits above them and the bits below `i` make up the number.
bitmap-axes_from :
    (v left i : ℕ)
    → bitmap (axes_from v left i) + v / 2 ^ (i + left) * 2 ^ (i + left) + v % 2 ^ i ≡ v
unfolding axes_from
bitmap-axes_from v zero i =
    let same : i + 0 ≡ i = omega arith in
    rw same (omega (arith, div-add-mod v (2 ^ i), mul_comm (2 ^ i) (v / 2 ^ i)))
bitmap-axes_from v (suc left) i =
    let rest = bitmap-axes_from v left (i + 1) in
    let double : v % 2 ^ (i + 1) ≡ v % 2 ^ i + v / 2 ^ i % 2 * 2 ^ i =
      ap (λ (n : ℕ). v % n) (power-suc i) ∙ mod-double v (2 ^ i) in
    let exponent : i + 1 + left ≡ i + suc left = omega arith in
    let rest' =
      subst (λ (e : ℕ). bitmap (axes_from v left (i + 1)) + v / 2 ^ e * 2 ^ e + v % 2 ^ (i + 1) ≡ v)
        exponent rest in
    elim (Bool-cases (bit_at v i)) [
      | inl set ↦
          let one : v / 2 ^ i % 2 ≡ 1 = ground (arith, set) in
          let once : v / 2 ^ i % 2 * 2 ^ i ≡ 2 ^ i = rw one (omega arith) in
          rw set (omega (arith, rest', double, once))
      | inr clear ↦
          let nil : v / 2 ^ i % 2 ≡ 0 = ground (arith, clear) in
          let never : v / 2 ^ i % 2 * 2 ^ i ≡ 0 = rw nil (omega arith) in
          rw clear (omega (arith, rest', double, never))
    ]

bitmap_nonempty : (axes : List ℕ) → axes ≢ [] → 1 ≤ bitmap axes
bitmap_nonempty [] h = absurd (h refl)
bitmap_nonempty (axis ∷ axes) h = omega (arith, one-le-pow axis 2 (omega arith))

-- The bitmap of the faulted axes is the fault word of the state, so that no axis is lost or made
-- up; there is an axis exactly when `drop_hold_inferred` says that a hold may be latched.
pub fault_axes-bitmap :
    {D : Type 0} (s : RobotState D)
    → s.joint_fault < 2 ^ 16
    → (bitmap (fault_axes s) ≡ s.joint_fault)
      × ((fault_axes s ≢ []) ↔ (drop_hold_inferred s ≡ true))
unfolding fault_axes drop_hold_inferred
fault_axes-bitmap s h =
    let all = bitmap-axes_from s.joint_fault 16 0 in
    let same : bitmap (fault_axes s) ≡ s.joint_fault = omega (arith, all) in
    let empty : fault_axes s ≡ [] → s.joint_fault ≡ 0 = λ e. sym same ∙ ap bitmap e in
    let some_axis = bitmap_nonempty (fault_axes s) in
    (same, (λ h. ground (arith, some_axis h, same), λ h e. ground (arith, empty e)))
