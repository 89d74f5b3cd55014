-- ===== src/Accounts/Balances/Laws.antt =====
-- What the operations of app/accounts/balance_manager.py do to the amounts that they report.
use arb_system.Base.{
  ℕ, ◌≡◌, refl, true, Text, upper, Decimal, pos, ◌+ℤ◌, ◌-ℤ◌, ◌≤ℤ◌, max_ℤ, max_cases, int_laws,
  lookup, lookup-insert, pair_key, pair_eq_iff, pair_eq, text_key, or_default, if◌then◌else◌, arith,
  Bool-cases, inl, inr, ap,
}
use arb_system.Accounts.Balances.{
  Balances, get, free_of, reserved_at, free, reserve, release_reserve, adjust_virtual,
}

module _ (x a y b : Text) (n : Decimal) (m : Balances) where
  reserved_at-reserve :
      reserved_at (reserve x a n m) y b
      ≡ (if pair_eq (x, upper a) (y, upper b) then reserved_at m x a +ℤ n else reserved_at m y b)
  unfolding reserved_at reserve
  reserved_at-reserve =
      ground (arith, lookup-insert (x, upper a) (y, upper b) (reserved_at m x a +ℤ n) m.reserved)

  pub reserved_at-release : reserved_at (release_reserve x a n m) y b ≡ (
      if pair_eq (x, upper a) (y, upper b)
      then max_ℤ (pos 0) (reserved_at m x a -ℤ n)
      else reserved_at m y b)
  unfolding reserved_at release_reserve
  reserved_at-release = ground (
    arith,
    lookup-insert (x, upper a) (y, upper b) (max_ℤ (pos 0) (reserved_at m x a -ℤ n)) m.reserved,
  )

  pub free_of-adjust :
      (now : ℕ)
      → free_of (get (adjust_virtual x a n now m) y b) ≡ (
          if pair_eq (x, upper a) (y, upper b)
          then max_ℤ (pos 0) (free_of (get m x a) +ℤ n)
          else free_of (get m y b))
  unfolding get adjust_virtual
  free_of-adjust now =
      rw lookup-insert
        (elim (Bool-cases (pair_eq (x, upper a) (y, upper b))) [ inl h ↦ rw h | inr h ↦ rw h ])

same_entry :
    (x a y b : Text) (m : Balances)
    → pair_eq (x, upper a) (y, upper b) ≡ true
    → (get m x a ≡ get m y b) × (reserved_at m x a ≡ reserved_at m y b)
unfolding get reserved_at
same_entry x a y b m h =
    let e = (pair_eq_iff (x, upper a) (y, upper b)).0 h in
    (ap (λ k. lookup k m.snapshots) e, ap (λ k. or_default (lookup k m.reserved) (pos 0)) e)

get-reserve : (x a y b : Text) (n : Decimal) (m : Balances) → get (reserve x a n m) y b ≡ get m y b
unfolding get reserve
get-reserve x a y b n m = refl

get-release :
    (x a y b : Text) (n : Decimal) (m : Balances) → get (release_reserve x a n m) y b ≡ get m y b
unfolding get release_reserve
get-release x a y b n m = refl

reserved_at-adjust :
    (x a y b : Text) (n : Decimal) (now : ℕ) (m : Balances)
    → reserved_at (adjust_virtual x a n now m) y b ≡ reserved_at m y b
unfolding reserved_at adjust_virtual
reserved_at-adjust x a y b n now m = refl

-- A reservation of at most what is free lowers the free amount of that asset at that exchange by
-- just as much, and of no other; asset names are compared in upper case.
pub free-reserve :
    (x a y b : Text) (n : Decimal) (m : Balances)
    → pos 0 ≤ℤ n
    → n ≤ℤ free m x a
    → free (reserve x a n m) y b
      ≡ (if pair_eq (x, upper a) (y, upper b) then free m x a -ℤ n else free m y b)
unfolding free
free-reserve x a y b n m h k =
    let raw = free_of (get m x a) in
    let held = reserved_at m x a in
    elim (Bool-cases (pair_eq (x, upper a) (y, upper b))) [
      | inl same ↦
          rw
            (
              reserved_at-reserve x a y b n m,
              get-reserve x a y b n m,
              ← (same_entry x a y b m same).0,
              same,
            )
            (grind
              (int_laws, max_cases (pos 0) (raw -ℤ held), max_cases (pos 0) (raw -ℤ (held +ℤ n))))
      | inr other ↦ rw (reserved_at-reserve x a y b n m, get-reserve x a y b n m, other)
    ]

-- A reservation that is released again leaves every free amount as it was.
pub free-release-reserve :
    (x a y b : Text) (n : Decimal) (m : Balances)
    → pos 0 ≤ℤ n
    → pos 0 ≤ℤ reserved_at m x a
    → free (release_reserve x a n (reserve x a n m)) y b ≡ free m y b
unfolding free
free-release-reserve x a y b n m h k =
    let held = reserved_at m x a in
    let back : max_ℤ (pos 0) (held +ℤ n -ℤ n) ≡ held =
      grind (int_laws, max_cases (pos 0) (held +ℤ n -ℤ n)) in
    let own = (pair_eq_iff (x, upper a) (x, upper a)).1 refl in
    elim (Bool-cases (pair_eq (x, upper a) (y, upper b))) [
      | inl same ↦
          rw (reserved_at-release x a y b n (reserve x a n m), same)
            (rw (get-release x a y b n (reserve x a n m), get-reserve x a y b n m)
              (rw (reserved_at-reserve x a x a n m, own)
                (rw (back, (same_entry x a y b m same).1))))
      | inr other ↦
          rw (reserved_at-release x a y b n (reserve x a n m), other)
            (rw (get-release x a y b n (reserve x a n m), get-reserve x a y b n m)
              (rw (reserved_at-reserve x a y b n m, other)))
    ]

-- A change of a virtual balance moves the amount of that asset at that exchange by the change, down
-- to zero at most, and no other amount.
free-adjust_virtual :
    (x a y b : Text) (n : Decimal) (now : ℕ) (m : Balances)
    → free (adjust_virtual x a n now m) y b ≡ (
        if pair_eq (x, upper a) (y, upper b)
        then max_ℤ (pos 0) (max_ℤ (pos 0) (free_of (get m x a) +ℤ n) -ℤ reserved_at m x a)
        else free m y b)
unfolding free
free-adjust_virtual x a y b n now m = elim (Bool-cases (pair_eq (x, upper a) (y, upper b))) [
  | inl same ↦
      rw (free_of-adjust x a y b n m now, same, reserved_at-adjust x a y b n now m)
        (rw (same_entry x a y b m same).1 refl)
  | inr other ↦ rw (free_of-adjust x a y b n m now, other, reserved_at-adjust x a y b n now m) refl
]
