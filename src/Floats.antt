-- ===== src/Floats.antt =====
-- What the code uses of `double` and `float`: they are the language's, so they are an interface.
-- A `float` is known by its bit pattern, which is what `memcpy` copies to and from the wire; the
-- host is little-endian, as the code assumes.
use litearm_cpp.Base.{ltb, leb, ℕ, ◌+◌, ◌-◌, ◌%◌, ◌^◌, ◌<◌, ◌≡◌, Bool, true, arith}

pub record Floats : Type 1 where
  pub Double : Type 0
  pub less : Double → Double → Bool
  -- `a <= b`, `std::isfinite(a)`, `std::fabs(a - b)` and `std::fabs(a)`.
  pub at_most : Double → Double → Bool
  pub is_finite : Double → Bool
  pub distance : Double → Double → Double
  pub magnitude : Double → Double
  -- `float(d)` as a bit pattern, and `double(f)`.
  pub narrow : Double → ℕ
  pub widen : ℕ → Double
  pub narrow_fits : (d : Double) → narrow d < 2 ^ 32
  -- The patterns that hold no NaN, for which the two conversions are exact in this order.
  pub is_number : ℕ → Bool
  pub narrow-widen : (w : ℕ) → w < 2 ^ 32 → is_number w ≡ true → narrow (widen w) ≡ w

-- The patterns themselves in the place of the doubles, which shows that the laws can hold.
abbrev pub pattern_floats : Floats
pattern_floats = record {
  Double = ℕ;
  less = λ a b. ltb a b;
  at_most = λ a b. leb a b;
  is_finite = λ a. true;
  distance = λ a b. a - b + (b - a);
  magnitude = λ a. a;
  narrow = λ d. d % 2 ^ 32;
  widen = λ w. w;
  narrow_fits = λ d. omega arith;
  is_number = λ w. true;
  narrow-widen = λ w h n. omega arith;
}
