-- ===== src/External/Float.antt =====
-- f64: the operations that src/finality/mod.rs makes on floating-point numbers, as an interface.
use frost_substrate.Prelude.{
  ℕ, ◌+◌, ◌*◌, ◌/◌, ◌^◌, ◌≡◌, Bool, true, false, arith, ltb, leb, min as nat_min,
}

pub record Float (F : Type 0) : Type 0 where
  -- The literal m / 10 ^ k, as in `0.67`.
  pub decimal : ℕ → ℕ → F
  -- `as f64` and `as u64`.
  pub of_u64 : ℕ → F
  pub to_u64 : F → ℕ
  pub add : F → F → F
  pub mul : F → F → F
  pub div : F → F → F
  pub min : F → F → F
  -- `<` and `<=`. Both are false at NaN.
  pub lt : F → F → Bool
  pub le : F → F → Bool

-- What a theorem asks of f64: IEEE comparison, and `f64::min`.
pub record IsFloat (F : Type 0) ⦃fl : Float F⦄ : Type 0 where
  -- `x.min(y)` is not above `y`, so it is below whatever `y` is below.
  pub min_lt : (x y t : F) → fl.lt y t ≡ true → fl.lt (fl.min x y) t ≡ true
  pub lt_not_le : (x y : F) → fl.lt x y ≡ true → fl.le y x ≡ false

-- Millionths, rounded down. They meet the two laws.
abbrev pub Millionths : Type 0
Millionths = ℕ

instance abbrev pub millionths_float : Float Millionths
millionths_float = record {
  decimal = λ m k. m * 1_000_000 / 10 ^ k;
  of_u64 = λ n. n * 1_000_000;
  to_u64 = λ x. x / 1_000_000;
  add = λ x y. x + y;
  mul = λ x y. x * y / 1_000_000;
  div = λ x y. x * 1_000_000 / y;
  min = nat_min;
  lt = ltb;
  le = leb;
}

pub Millionths-IsFloat : IsFloat Millionths
Millionths-IsFloat = record { min_lt = λ x y t h. ground arith; lt_not_le = λ x y h. ground arith }
