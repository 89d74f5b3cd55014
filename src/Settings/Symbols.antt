-- ===== src/Settings/Symbols.antt =====
-- The symbol list of app/config/settings.py: no empty symbol, none twice, and in the tiered form
-- just the symbols of the enabled tiers.
use arb_system.Base.{
  ◌≡◌, refl, Bool, true, false, ◌&&◌, ◌||◌, Text, text_eq, text_eq_iff, text_key, List, [], ◌∷◌,
  ◌++◌, split, strip, contains, arith,
}
use arb_system.Settings.{Settings, or_tiers, add_symbol, add_parts, add_tier, enabled_symbol_list}

-- No text is empty, and none stands twice.
abbrev pub IsSymbolList : List Text → Type 0
IsSymbolList [] = Unit
IsSymbolList (s ∷ ss) = (text_eq [] s ≡ false) × (contains s ss ≡ false) × IsSymbolList ss

contains-snoc :
    (s t : Text) (out : List Text) → contains s (out ++ (t ∷ [])) ≡ (contains s out || text_eq t s)
unfolding contains
contains-snoc s t [] = ground arith
contains-snoc s t (o ∷ out) = ground (arith, contains-snoc s t out)

snoc-IsSymbolList :
    (t : Text) (out : List Text)
    → IsSymbolList out
    → text_eq [] t ≡ false
    → contains t out ≡ false
    → IsSymbolList (out ++ (t ∷ []))
unfolding contains
snoc-IsSymbolList t [] v e h = (e, refl, tt)
snoc-IsSymbolList t (o ∷ out) v e h = (
  v.0,
  rw contains-snoc (ground (arith, text_eq_iff o t, text_eq_iff t o)),
  snoc-IsSymbolList t out v.2 e (ground arith),
)

add_symbol-IsSymbolList :
    (t : Text) (out : List Text) → IsSymbolList out → IsSymbolList (add_symbol t out)
unfolding add_symbol
add_symbol-IsSymbolList [] out v = v
add_symbol-IsSymbolList (c ∷ s) out v = ground (arith, snoc-IsSymbolList (c ∷ s) out v refl)

add_parts-IsSymbolList : (ps out : List Text) → IsSymbolList out → IsSymbolList (add_parts ps out)
unfolding add_parts
add_parts-IsSymbolList [] out v = v
add_parts-IsSymbolList (p ∷ ps) out v =
    add_parts-IsSymbolList ps (add_symbol (strip p) out) (add_symbol-IsSymbolList (strip p) out v)

add_tier-IsSymbolList :
    (on : Bool) (raw : Text) (out : List Text)
    → IsSymbolList out
    → IsSymbolList (add_tier on raw out)
unfolding add_tier
add_tier-IsSymbolList false raw out v = v
add_tier-IsSymbolList true raw out v = add_parts-IsSymbolList (split b',' raw) out v

-- Whether a text is one of the stripped parts of a tier.
abbrev pub in_parts : Text → List Text → Bool
in_parts t [] = false
in_parts t (p ∷ ps) = text_eq (strip p) t || in_parts t ps

contains-add_symbol :
    (t s : Text) (out : List Text)
    → text_eq [] t ≡ false
    → contains t (add_symbol s out) ≡ (contains t out || text_eq s t)
unfolding add_symbol
contains-add_symbol t [] out h = ground arith
contains-add_symbol t (c ∷ s) out h =
    ground (arith, contains-snoc t (c ∷ s) out, text_eq_iff (c ∷ s) t)

contains-add_parts :
    (t : Text) (ps out : List Text)
    → text_eq [] t ≡ false
    → contains t (add_parts ps out) ≡ (contains t out || in_parts t ps)
unfolding add_parts
contains-add_parts t [] out h = ground arith
contains-add_parts t (p ∷ ps) out h = ground (
  arith,
  contains-add_parts t ps (add_symbol (strip p) out) h,
  contains-add_symbol t (strip p) out h,
)

abbrev pub in_tier : Text → Bool → Text → Bool
in_tier t on raw = on && in_parts t (split b',' raw)

contains-add_tier :
    (t : Text) (on : Bool) (raw : Text) (out : List Text)
    → text_eq [] t ≡ false
    → contains t (add_tier on raw out) ≡ (contains t out || in_tier t on raw)
unfolding add_tier
contains-add_tier t false raw out h = ground arith
contains-add_tier t true raw out h = contains-add_parts t (split b',' raw) out h

-- With no legacy list, the enabled symbols are the stripped, non-empty parts of the enabled tiers,
-- each once: a text is enabled exactly when it is not empty and an enabled tier has it.
pub enabled_symbols-tiers :
    (s : Settings)
    → s.enabled_symbols ≡ []
    → IsSymbolList (enabled_symbol_list s)
      × ((t : Text)
          → text_eq [] t ≡ false
          → contains t (enabled_symbol_list s) ≡ (
              in_tier t s.symbol_tier1_enabled s.symbol_tier1
              || in_tier t s.symbol_tier2_enabled s.symbol_tier2
              || in_tier t s.symbol_tier3_enabled s.symbol_tier3))
unfolding enabled_symbol_list contains
enabled_symbols-tiers s h =
    let one = add_tier s.symbol_tier1_enabled s.symbol_tier1 [] in
    let two = add_tier s.symbol_tier2_enabled s.symbol_tier2 one in
    rw (h, or_tiers)
      (
        add_tier-IsSymbolList _ s.symbol_tier3 two (
            add_tier-IsSymbolList _ s.symbol_tier2 one
              (add_tier-IsSymbolList s.symbol_tier1_enabled s.symbol_tier1 [] tt)),
        λ t e. rw (contains-add_tier t s.symbol_tier3_enabled s.symbol_tier3 two e) (
            rw (contains-add_tier t s.symbol_tier2_enabled s.symbol_tier2 one e)
              (rw (contains-add_tier t s.symbol_tier1_enabled s.symbol_tier1 [] e) (ground arith))),
      )
