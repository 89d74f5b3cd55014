-- ===== src/Accounts/Balances.antt =====
-- app/accounts/balance_manager.py. Times are arguments, in milliseconds; what an adapter returned
-- for a refresh is an argument too, `none` for an exception.
pub mod Laws
use arb_system.Base.{
  ℕ, ◌-◌, ◌*◌, Bool, true, Text, text_eq, upper, Decimal, pos, ◌+ℤ◌, ◌-ℤ◌, max_ℤ, Dict, lookup,
  insert, List, [], ◌∷◌, Option, none, some, or_default, text_key, pair_key, ltb, values,
  if◌then◌else◌,
}

pub record BalanceSnapshot : Type 0 where
  pub exchange : Text
  pub asset : Text
  pub free : Decimal
  pub locked : Decimal
  pub total : Decimal
  pub ts_local : ℕ

pub record Balances : Type 0 where
  pub snapshots : Dict (Text × Text) BalanceSnapshot
  pub last_ms : Dict Text ℕ
  pub reserved : Dict (Text × Text) Decimal

abbrev pub no_balances : Balances
no_balances = record { snapshots = []; last_ms = []; reserved = [] }

unfoldable pub get : Balances → Text → Text → Option BalanceSnapshot
get m exchange asset = lookup (exchange, upper asset) m.snapshots

abbrev pub free_of : Option BalanceSnapshot → Decimal
free_of none = pos 0
free_of (some snap) = snap.free

unfoldable pub reserved_at : Balances → Text → Text → Decimal
reserved_at m exchange asset = or_default (lookup (exchange, upper asset) m.reserved) (pos 0)

unfoldable pub free : Balances → Text → Text → Decimal
free m exchange asset =
    max_ℤ (pos 0) (free_of (get m exchange asset) -ℤ reserved_at m exchange asset)

unfoldable pub all : Balances → List BalanceSnapshot
all m = values m.snapshots

unfoldable pub by_exchange : Text → List BalanceSnapshot → List BalanceSnapshot
by_exchange exchange [] = []
by_exchange exchange (b ∷ bs) =
    let rest = by_exchange exchange bs in if text_eq b.exchange exchange then b ∷ rest else rest

abbrev older_than : ℕ → ℕ → Option ℕ → Bool
older_than limit now none = true
older_than limit now (some last) = ltb limit (now - last)

unfoldable pub is_stale : Balances → Text → ℕ → ℕ → Bool
is_stale m exchange max_staleness_sec now =
    older_than (max_staleness_sec * 1000) now (lookup exchange m.last_ms)

abbrev pub put : BalanceSnapshot → Balances → Balances
put snap m = record m { snapshots = insert (snap.exchange, upper snap.asset) snap m.snapshots }

unfoldable pub put_all : List BalanceSnapshot → Balances → Balances
put_all [] m = m
put_all (s ∷ ss) m = put_all ss (put s m)

abbrev touch : Text → ℕ → Balances → Balances
touch exchange now m = record m { last_ms = insert exchange now m.last_ms }

unfoldable pub refresh_one : Text → Option (List BalanceSnapshot) → ℕ → Balances → Balances
unfolding put_all
refresh_one exchange none now m = m
refresh_one exchange (some snaps) now m = touch exchange now (put_all snaps m)

abbrev virtual : Text → Text → Decimal → ℕ → BalanceSnapshot
virtual exchange asset amount now = record {
  exchange = exchange;
  asset = upper asset;
  free = amount;
  locked = pos 0;
  total = amount;
  ts_local = now;
}

unfoldable pub set_virtual_balance : Text → Text → Decimal → ℕ → Balances → Balances
set_virtual_balance exchange asset amount now m = touch exchange now (record m {
  snapshots = insert (exchange, upper asset) (virtual exchange asset amount now) m.snapshots;
})

unfoldable pub reserve : Text → Text → Decimal → Balances → Balances
reserve exchange asset amount m = record m {
  reserved = insert (exchange, upper asset) (reserved_at m exchange asset +ℤ amount) m.reserved;
}

unfoldable pub release_reserve : Text → Text → Decimal → Balances → Balances
release_reserve exchange asset amount m = record m {
  reserved =
      insert (exchange, upper asset) (max_ℤ (pos 0) (reserved_at m exchange asset -ℤ amount))
        m.reserved;
}

unfoldable pub adjust_virtual : Text → Text → Decimal → ℕ → Balances → Balances
adjust_virtual exchange asset delta now m =
    let new = max_ℤ (pos 0) (free_of (get m exchange asset) +ℤ delta) in
    touch exchange now (record m {
      snapshots = insert (exchange, upper asset) (virtual exchange asset new now) m.snapshots;
    })
