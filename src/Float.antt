-- ===== src/Float.antt =====
-- The floating-point operations that ranking uses, as an interface. `Float` stands for the values
-- other than NaN; the laws are those of correctly rounded IEEE 754 arithmetic, where rounding is
-- monotone. Addition is not associative there, and no law says that it is.
use knowledgeos.Prelude.{ℕ, ◌≤◌, ◌<◌, ◌≡◌, Bool, true, false}

pub record FloatOps : Type 1 where
  pub Float : Type 0
  -- the float of an int, `a + b`, `a / b` and `a <= b`
  pub of_nat : ℕ → Float
  pub add : Float → Float → Float
  pub div : Float → Float → Float
  pub le : Float → Float → Bool
  -- `round(a, 4)`
  pub round : Float → Float

-- `1.0 / n`
abbrev pub recip : (F : FloatOps) → ℕ → F.Float
recip F n = F.div (F.of_nat 1) (F.of_nat n)

pub record FloatLaws (F : FloatOps) : Type 0 where
  pub le_refl : (a : F.Float) → F.le a a ≡ true
  pub le_trans : (a b c : F.Float) → F.le a b ≡ true → F.le b c ≡ true → F.le a c ≡ true
  pub le_total : (a b : F.Float) → F.le a b ≡ false → F.le b a ≡ true
  pub add_mono :
      (a b c d : F.Float) → F.le a b ≡ true → F.le c d ≡ true → F.le (F.add a c) (F.add b d) ≡ true
  pub le-add_recip : (a : F.Float) (n : ℕ) → F.le a (F.add a (recip F n)) ≡ true
  pub recip_antitone : (m n : ℕ) → 0 < m → m ≤ n → F.le (recip F n) (recip F m) ≡ true
  pub div_mono :
      (a b : F.Float) (m n : ℕ)
      → 0 < m
      → 0 < n
      → F.le a b ≡ true
      → let c = F.div (F.of_nat m) (F.of_nat n) in F.le (F.div a c) (F.div b c) ≡ true
