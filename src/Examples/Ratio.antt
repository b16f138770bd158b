-- ===== src/Examples/Ratio.antt =====
-- A float64 to run the models with: exact fractions, with denominator 0 for NaN.
use fortify.Base.{
  ℕ, zero, suc, ◌*◌, ◌+◌, ◌-◌, ◌/◌, ◌^◌, Bool, false, ◌&&◌, not, leb, ltb, ◌==◌, if◌then◌else◌,
  Float64,
}

abbrev pub le : ℕ × ℕ → ℕ × ℕ → Bool
le (a, b) (c, d) = leb (a * d) (c * b) && not (b * d == 0)

abbrev pub lt : ℕ × ℕ → ℕ × ℕ → Bool
lt (a, b) (c, d) = ltb (a * d) (c * b) && not (b * d == 0)

abbrev pub divided : ℕ × ℕ → ℕ × ℕ → ℕ × ℕ
divided (a, b) (c, d) = (a * d, b * c)

abbrev pub nan : ℕ × ℕ → Bool
nan (a, b) = b == 0

abbrev pub plus : ℕ × ℕ → ℕ × ℕ → ℕ × ℕ
plus (a, b) (c, d) = (a * d + c * b, b * d)

abbrev pub minus : ℕ × ℕ → ℕ × ℕ → ℕ × ℕ
minus (a, b) (c, d) = (a * d - c * b, b * d)

abbrev pub times : ℕ × ℕ → ℕ × ℕ → ℕ × ℕ
times (a, b) (c, d) = (a * c, b * d)

abbrev pub power : ℕ × ℕ → ℕ → ℕ × ℕ
power (a, b) n = (a ^ n, b ^ n)

abbrev pub cut : ℕ × ℕ → ℕ
cut (a, b) = a / b

-- The largest s below the fuel with s * s ≤ n.
abbrev pub root : ℕ → ℕ → ℕ
root n zero = zero
root n (suc k) = if leb (suc k * suc k) n then suc k else root n k

abbrev pub square_root : ℕ × ℕ → ℕ × ℕ
square_root (a, b) = (root (a / b) 20, 1)

instance abbrev pub ratio : Float64
ratio = record {
  F = ℕ × ℕ;
  of_nat = λ n. (n, 1);
  literal = λ n d. (n, d);
  fdiv = divided;
  fleb = le;
  fltb = lt;
  is_nan = nan;
  is_inf = λ x. false;
  fadd = plus;
  fsub = minus;
  fmul = times;
  fpow = power;
  fsqrt = square_root;
  trunc = cut;
}
