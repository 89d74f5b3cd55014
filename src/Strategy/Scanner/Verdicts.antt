-- ===== src/Strategy/Scanner/Verdicts.antt =====
-- The counters of app/strategy/opportunity_scanner.py after a list of verdicts.
use arb_system.Base.{
  ℕ, suc, ◌+◌, ◌≡◌, sym, ap, Text, text_eq, text_eq_iff, Option, none, some, List, [], ◌∷◌, ◌++◌,
  lookup, lookup-insert, text_key, or_default, length, if◌then◌else◌, Bool-cases, inl, inr, arith,
}
use arb_system.Strategy.Scanner.{Scanner, Scan, record_detected, count_reject, rejected}

-- How often a reason has been counted.
abbrev pub count : Text → Scanner → ℕ
count key s = or_default (lookup key s.reject_counts) 0

-- A verdict is the reason of a rejection, or `none` for an offer.
abbrev pub rejections : List (Option Text) → ℕ
rejections [] = 0
rejections (none ∷ vs) = rejections vs
rejections (some _ ∷ vs) = suc (rejections vs)

abbrev pub offers : List (Option Text) → ℕ
offers [] = 0
offers (none ∷ vs) = suc (offers vs)
offers (some _ ∷ vs) = offers vs

abbrev is_it : Text → Text → ℕ
is_it r key = if text_eq r key then 1 else 0

abbrev pub times : Text → List (Option Text) → ℕ
times key [] = 0
times key (none ∷ vs) = times key vs
times key (some r ∷ vs) = is_it r key + times key vs

rejections-append :
    (us vs : List (Option Text)) → rejections (us ++ vs) ≡ rejections us + rejections vs
rejections-append [] vs = omega arith
rejections-append (none ∷ us) vs = rejections-append us vs
rejections-append (some r ∷ us) vs = omega (arith, rejections-append us vs)

offers-append : (us vs : List (Option Text)) → offers (us ++ vs) ≡ offers us + offers vs
offers-append [] vs = omega arith
offers-append (none ∷ us) vs = omega (arith, offers-append us vs)
offers-append (some r ∷ us) vs = offers-append us vs

times-append :
    (key : Text) (us vs : List (Option Text)) → times key (us ++ vs) ≡ times key us + times key vs
times-append key [] vs = omega arith
times-append key (none ∷ us) vs = times-append key us vs
times-append key (some r ∷ us) vs = omega (arith, times-append key us vs)

-- What some verdicts add to a scan.
pub record Adds (vs : List (Option Text)) (x y : Scan) : Type 0 where
  pub session : y.scanner.session_count ≡ x.scanner.session_count + rejections vs
  pub counts : (key : Text) → count key y.scanner ≡ count key x.scanner + times key vs
  pub out : length y.out ≡ length x.out + offers vs

pub Adds-nothing : (x : Scan) → Adds [] x x
Adds-nothing x = record { session = omega arith; counts = λ key. omega arith; out = omega arith }

pub Adds-then :
    (us vs : List (Option Text)) (x y z : Scan) → Adds us x y → Adds vs y z → Adds (us ++ vs) x z
Adds-then us vs x y z a b = record {
  session =
      let one = a.session in
      let two = b.session in omega (arith, one, two, rejections-append us vs);
  counts = λ key.
      let one = a.counts key in
      let two = b.counts key in omega (arith, one, two, times-append key us vs);
  out = let one = a.out in let two = b.out in omega (arith, one, two, offers-append us vs);
}

pub rejected-Adds : (key : Text) (x : Scan) → Adds (some key ∷ []) x (rejected key x)
unfolding record_detected count_reject
rejected-Adds key x = record {
  session = omega arith;
  counts = λ k. rw lookup-insert (elim (Bool-cases (text_eq key k)) [
    | inl same ↦
        rw (same, sym (ap (λ t. count t x.scanner) ((text_eq_iff key k).0 same))) (omega arith)
    | inr other ↦ rw other (omega arith)
  ]);
  out = omega arith;
}
