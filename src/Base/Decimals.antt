-- ===== src/Base/Decimals.antt =====
-- Python's `Decimal` as a whole number of ticks of 10^-28. Sums, differences and comparisons are
-- exact; a product and a quotient are rounded half to even, as the default context does.
use Prim.Native.Nat.{ℕ, zero, suc, ◌+◌, ◌-◌, ◌*◌, ◌/◌, ◌%◌, ◌^◌, ◌≤◌, ◌<◌}
use mathlib.Core.Path.{◌≡◌, ap, ◌∙◌}
use mathlib.Core.Option.{Option, none, some}
use native.Mathlib.Omega.{arith}
use native.Mathlib.Nat.{
  mul-div_cancel, mul-mod_left, le_refl, mul-zero, mul_comm, le-div_iff_mul-le,
}
use native.Mathlib.Decide.{dec_lt, dec_le}
use arb_system.Base.Tests.{ltb, ◌==◌, if◌then◌else◌}
use arb_system.Base.Ints.{ℤ, pos, negsuc, pos_part, sub_ℕ, ◌+ℤ◌, ◌≤ℤ◌, ◌<ℤ◌, int_laws, eqb_ℤ}

abbrev pub Decimal : Type 0
Decimal = ℤ

-- The number of ticks in one.
unfoldable pub scale : ℕ
scale = 10 ^ 28

pub scale_pos : 0 < scale
unfolding scale
scale_pos = omega arith

-- `Decimal(n)`
unfoldable pub whole : ℕ → Decimal
whole n = pos (n * scale)

-- n / d to the nearest whole number, and a tie to the even one.
unfoldable pub round_div : ℕ → ℕ → ℕ
round_div n d =
    let q = n / d in
    let r = n % d in
    if ltb (2 * r) d then q else if ltb d (2 * r) then q + 1 else if (q % 2) == 0 then q else q + 1

-- A magnitude with the sign of a product of two signs.
abbrev signed : ℤ → ℤ → ℕ → ℤ
signed (pos _) (pos _) n = pos n
signed (pos _) (negsuc _) n = sub_ℕ 0 n
signed (negsuc _) (pos _) n = sub_ℕ 0 n
signed (negsuc _) (negsuc _) n = pos n

abbrev magnitude : ℤ → ℕ
magnitude (pos n) = n
magnitude (negsuc n) = suc n

unfoldable pub mul_dec : Decimal → Decimal → Decimal
mul_dec a b = signed a b (round_div (magnitude a * magnitude b) scale)

-- The quotient by a divisor that is not zero. The program tests for zero first, or divides by a
-- positive constant.
unfoldable pub div_dec : Decimal → Decimal → Decimal
div_dec a b = signed a b (round_div (magnitude a * scale) (magnitude b))

-- `x or default`, where `x` may be `None`: a `Decimal` of zero is false too.
abbrev pub or_nonzero : Option Decimal → Decimal → Decimal
or_nonzero none d = d
or_nonzero (some m) d = if eqb_ℤ m (pos 0) then d else m

abbrev pub or_else_nonzero : Option Decimal → Option Decimal → Option Decimal
or_else_nonzero none d = d
or_else_nonzero (some m) d = if eqb_ℤ m (pos 0) then d else some m

-- The rounded quotient is within half a unit of the exact one.
pub round_div_bounds :
    (n d : ℕ)
    → 0 < d
    → (2 * (round_div n d * d) ≤ 2 * n + d) × (2 * n ≤ 2 * (round_div n d * d) + d)
unfolding round_div
round_div_bounds n d h = grind arith

pub round_div_exact : (n d : ℕ) → 0 < d → round_div (n * d) d ≡ n
unfolding round_div
round_div_exact n d h = ground (arith, mul-div_cancel n h, mul-mod_left d n)

pub round_div_mono : (n m d : ℕ) → 0 < d → n ≤ m → round_div n d ≤ round_div m d
round_div_mono n m d h le = elim (dec_lt (round_div m d) (round_div n d)) [
  | no ok ↦ omega arith
  | yes bad ↦
      let far : round_div m d * d + d ≤ round_div n d * d = grind arith in
      let same : n ≡ m = omega (arith, round_div_bounds n d h, round_div_bounds m d h) in
      let level : round_div n d ≤ round_div m d = rw same (le_refl _) in absurd (omega arith)
]

pub mul_nonneg : (a b : Decimal) → pos 0 ≤ℤ a → pos 0 ≤ℤ b → pos 0 ≤ℤ mul_dec a b
unfolding mul_dec
mul_nonneg (pos a) (pos b) h k = omega arith
mul_nonneg (pos a) (negsuc b) h k = absurd (omega arith)
mul_nonneg (negsuc a) _ h k = absurd (omega arith)

pub div_nonneg : (a b : Decimal) → pos 0 ≤ℤ a → pos 0 ≤ℤ b → pos 0 ≤ℤ div_dec a b
unfolding div_dec
div_nonneg (pos a) (pos b) h k = omega arith
div_nonneg (pos a) (negsuc b) h k = absurd (omega arith)
div_nonneg (negsuc a) _ h k = absurd (omega arith)

zero_rounded : (m d : ℕ) → 0 < d → round_div (0 * m) d ≡ 0
unfolding round_div
zero_rounded m d h = ground arith

-- A product with a positive factor, or a quotient by one, is positive only if the other number is.
pub pos-of_mul : (a b : Decimal) → pos 0 <ℤ b → pos 0 <ℤ mul_dec a b → pos 0 <ℤ a
unfolding mul_dec
pos-of_mul (pos zero) (pos b) h k =
    let z = zero_rounded b scale scale_pos in let k' = rw z at k in absurd (omega arith)
pos-of_mul (pos (suc a)) (pos b) h k = omega arith
pos-of_mul (negsuc a) (pos b) h k = ground arith
pos-of_mul a (negsuc b) h k = absurd (omega arith)

pub pos-of_div : (a b : Decimal) → pos 0 <ℤ b → pos 0 <ℤ div_dec a b → pos 0 <ℤ a
unfolding div_dec
pos-of_div (pos zero) (pos b) h k =
    let z = zero_rounded scale b (omega arith) in let k' = rw z at k in absurd (omega arith)
pos-of_div (pos (suc a)) (pos b) h k = omega arith
pos-of_div (negsuc a) (pos b) h k = ground arith
pos-of_div a (negsuc b) h k = absurd (omega arith)

pub mul_zero : (a : Decimal) → mul_dec a (pos 0) ≡ pos 0
unfolding mul_dec round_div scale
mul_zero (pos a) = rw mul-zero
mul_zero (negsuc a) = rw mul-zero

-- A larger factor gives a product that is no smaller.
pub mul_mono : (a b c : Decimal) → pos 0 ≤ℤ c → a ≤ℤ b → mul_dec a c ≤ℤ mul_dec b c
unfolding mul_dec
mul_mono (pos a) (pos b) (pos c) hc h =
    omega (arith, round_div_mono (a * c) (b * c) scale scale_pos (grind arith))
mul_mono (negsuc a) (negsuc b) (pos c) hc h =
    ground (arith, round_div_mono (suc b * c) (suc a * c) scale scale_pos (grind arith))
mul_mono (negsuc a) (pos b) (pos c) hc h = ground arith
mul_mono (pos a) (negsuc b) c hc h = absurd (omega arith)
mul_mono a b (negsuc c) hc h = absurd (omega arith)

pub mul_comm_dec : (a b : Decimal) → mul_dec a b ≡ mul_dec b a
unfolding mul_dec
mul_comm_dec (pos a) (pos b) = rw (mul_comm a b)
mul_comm_dec (pos a) (negsuc b) = rw (mul_comm a (suc b))
mul_comm_dec (negsuc a) (pos b) = rw (mul_comm (suc a) b)
mul_comm_dec (negsuc a) (negsuc b) = rw (mul_comm (suc a) (suc b))

pub mul_whole_one : (a : Decimal) → pos 0 ≤ℤ a → mul_dec a (whole 1) ≡ a
unfolding mul_dec whole
mul_whole_one (pos a) h =
    let one : 1 * scale ≡ scale = omega arith in rw one (ap pos (round_div_exact a scale scale_pos))
mul_whole_one (negsuc a) h = absurd (omega arith)

-- A share of at most one of an amount is no more than the amount.
pub mul_le_self : (a r : Decimal) → pos 0 ≤ℤ a → r ≤ℤ whole 1 → mul_dec a r ≤ℤ a
mul_le_self a r h le = rw (mul_comm_dec a r) (
    let top : mul_dec (whole 1) a ≡ a = mul_comm_dec (whole 1) a ∙ mul_whole_one a h in
    let below = mul_mono r (whole 1) a h le in rw top at below)

-- How far, in ticks, a rounded quotient times its divisor may pass the dividend.
unfoldable pub slack : Decimal → Decimal
slack m = pos ((pos_part m + scale) / (2 * scale))

slack_bound :
    (a m d p q : ℕ)
    → 0 < d
    → 2 * (q * m) ≤ 2 * (a * d) + m
    → 2 * (p * d) ≤ 2 * (q * m) + d
    → p ≤ a + (m + d) / (2 * d)
slack_bound a m d p q h one two =
    let near : (k : ℕ) → p ≡ a + k → k * (2 * d) ≤ m + d =
      λ k e. let e' : p * d ≡ (a + k) * d = ap (λ (t : ℕ). t * d) e in omega arith in
    elim (dec_le p a) [
      | yes below ↦ omega arith
      | no above ↦
          let fits = (le-div_iff_mul-le {k = 2 * d} (omega arith)).1 (near (p - a) (omega arith)) in
          omega arith
    ]

pub mul-div-le : (a m : Decimal) → pos 0 ≤ℤ a → pos 0 <ℤ m → mul_dec (div_dec a m) m ≤ℤ a +ℤ slack m
unfolding mul_dec div_dec slack
mul-div-le (pos a) (pos m) ha hm =
    let q = round_div (a * scale) m in
    let p = round_div (q * m) scale in
    let one = (round_div_bounds (a * scale) m (omega arith)).0 in
    let two = (round_div_bounds (q * m) scale scale_pos).0 in
    let close = slack_bound a m scale p q scale_pos one two in omega int_laws
mul-div-le (negsuc a) m ha hm = absurd (omega arith)
mul-div-le (pos a) (negsuc m) ha hm = absurd (omega arith)
