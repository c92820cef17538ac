-- ===== src/Tests.antt =====
-- Concrete instances of the parameters, and the runs of the children on them.
mod Ranking
mod Answers
mod Sessions
mod Turns
mod Members
mod Jobs
mod Uploads
mod Services
use native.Mathlib.Nat.{le-div_iff_mul-le, div-mul-le_self, mul-le-mul_left}
use knowledgeos.Prelude.{
  ℕ, zero, suc, ◌+◌, ◌-◌, ◌*◌, ◌/◌, ◌≤◌, ◌<◌, ◌≡◌, refl, Bool, true, false, ◌&&◌, ◌||◌, Option,
  none, some, List, [], ◌∷◌, leb, ltb, ◌==◌, if◌then◌else◌, arith,
}
use knowledgeos.Float.{FloatOps, FloatLaws}
use knowledgeos.Text.{Text, Unicode}
use knowledgeos.Citation.RoundTrip.{ReadsAscii}

-- Fixed-point numbers with a step of 1 / 3600, and 0 for a quotient by 0.
abbrev fixed_div : ℕ → ℕ → ℕ
fixed_div a zero = 0
fixed_div a (suc b) = a * 3600 / suc b

abbrev pub fixed : FloatOps
fixed = record {
  Float = ℕ;
  of_nat = λ n. n * 3600;
  add = λ a b. a + b;
  div = fixed_div;
  le = leb;
  round = λ a. a;
}

fixed_div_mono : (a b c : ℕ) → a ≤ b → fixed_div a c ≤ fixed_div b c
fixed_div_mono a b zero h = omega arith
fixed_div_mono a b (suc c) h =
    let k : 0 < suc c = omega arith in
    let q = a * 3600 / suc c in
    let below = div-mul-le_self (a * 3600) (suc c) in (le-div_iff_mul-le k).1 (omega (arith, below))

fixed_div_antitone : (a m n : ℕ) → 0 < m → m ≤ n → fixed_div a n ≤ fixed_div a m
fixed_div_antitone a zero n p h = absurd (omega arith)
fixed_div_antitone a (suc m) zero p h = absurd (omega arith)
fixed_div_antitone a (suc m) (suc n) p h =
    let k : 0 < suc m = omega arith in
    let below = div-mul-le_self (a * 3600) (suc n) in
    let step = mul-le-mul_left (a * 3600 / suc n) h in
    (le-div_iff_mul-le k).1 (omega (arith, below, step))

fixed_div_le : (a b c : ℕ) → leb a b ≡ true → leb (fixed_div a c) (fixed_div b c) ≡ true
fixed_div_le a b c h = ground (arith, fixed_div_mono a b c)

fixed_recip_le :
    (m n : ℕ) → 0 < m → m ≤ n → leb (fixed_div 3600 (n * 3600)) (fixed_div 3600 (m * 3600)) ≡ true
fixed_recip_le m n p h =
    ground (arith, fixed_div_antitone 3600 (m * 3600) (n * 3600) (omega arith) (omega arith))

pub fixed_laws : FloatLaws fixed
fixed_laws = record {
  le_refl = λ a. ground arith;
  le_trans = λ a b c p q. ground arith;
  le_total = λ a b p. ground arith;
  add_mono = λ a b c d p q. ground arith;
  le-add_recip = λ a n. ground arith;
  recip_antitone = fixed_recip_le;
  div_mono = λ a b m n p q h. fixed_div_le a b (fixed_div (m * 3600) (n * 3600)) h;
}

abbrev ascii_digit : ℕ → Option ℕ
ascii_digit c = if leb b'0' c && leb c b'9' then some (c - 48) else none

abbrev lower_char : ℕ → ℕ
lower_char c = if leb b'A' c && leb c b'Z' then c + 32 else c

abbrev lower_text : Text → Text
lower_text [] = []
lower_text (c ∷ s) = lower_char c ∷ lower_text s

abbrev pub ascii : Unicode
ascii = record {
  is_space = λ c. c == b' ' || (leb 9 c && leb c 13);
  is_word = λ c.
      (leb b'0' c && leb c b'9')
      || (leb b'a' (lower_char c) && leb (lower_char c) b'z')
      || c == b'_';
  digit = ascii_digit;
  lower = lower_text;
}

pub ascii-ReadsAscii : ReadsAscii ascii
ascii-ReadsAscii = record {
  digits = λ d h. ground arith;
  open_bracket = refl;
  close_bracket = refl;
  not_space = λ c p q. ground arith;
}
