-- ===== src/Base/Dicts.antt =====
-- Python dicts and sets over any type of keys with a Boolean equality, in insertion order.
use mathlib.Core.Path.{◌≡◌, refl}
use mathlib.Core.Logic.{◌↔◌, ◌≢◌, inl, inr}
use mathlib.Core.Bool.{Bool, true, false, ◌&&◌, ◌||◌}
use mathlib.Core.Option.{Option, none, some}
use mathlib.Core.List.{List, [], ◌∷◌}
use native.Mathlib.Omega.{arith}
use arb_system.Base.Tests.{if◌then◌else◌, Bool-cases}
use arb_system.Base.Texts.{Text, text_eq, text_eq_iff}

-- Equality of keys, with its law.
pub record Eq {ℓ} (A : Type ℓ) : Type ℓ where
  pub beq : A → A → Bool
  pub beq_iff : (a b : A) → (beq a b ≡ true) ↔ (a ≡ b)

instance abbrev pub text_key : Eq Text
text_key = record { beq = text_eq; beq_iff = text_eq_iff }

abbrev pub pair_eq : Text × Text → Text × Text → Bool
pair_eq (a, b) (c, d) = text_eq a c && text_eq b d

pub pair_eq_iff : (p q : Text × Text) → (pair_eq p q ≡ true) ↔ (p ≡ q)
pair_eq_iff (a, b) (c, d) = ground (arith, text_eq_iff a c, text_eq_iff b d)

instance abbrev pub pair_key : Eq (Text × Text)
pair_key = record { beq = pair_eq; beq_iff = pair_eq_iff }

abbrev pub Dict {ℓ κ} : Type ℓ → Type κ → Type (ℓ ⊔ κ)
Dict K V = List (K × V)

-- `d.values()`
unfoldable pub values {ℓ κ} : {K : Type ℓ} {V : Type κ} → Dict K V → List V
values [] = []
values ((_, v) ∷ d) = v ∷ values d

module _ {ℓ κ} {K : Type ℓ} {V : Type κ} ⦃e : Eq K⦄ where
  unfoldable pub lookup : K → Dict K V → Option V
  lookup k [] = none
  lookup k ((j, v) ∷ d) = if e.beq j k then some v else lookup k d

  -- `d[k] = v`
  unfoldable pub insert : K → V → Dict K V → Dict K V
  insert k v [] = (k, v) ∷ []
  insert k v ((j, w) ∷ d) = if e.beq j k then (j, v) ∷ d else (j, w) ∷ insert k v d

  pub lookup-insert :
      (k j : K) (v : V) (d : Dict K V)
      → lookup j (insert k v d) ≡ (if e.beq k j then some v else lookup j d)
  unfolding lookup insert
  lookup-insert k j v [] = refl
  lookup-insert k j v ((i, w) ∷ d) =
      ground (arith, e.beq_iff k j, e.beq_iff i k, e.beq_iff i j, lookup-insert k j v d)

  pub lookup-insert_self : (k : K) (v : V) (d : Dict K V) → lookup k (insert k v d) ≡ some v
  lookup-insert_self k v d = ground (arith, lookup-insert k k v d, e.beq_iff k k)

  pub lookup-insert_ne :
      (k j : K) (v : V) (d : Dict K V) → k ≢ j → lookup j (insert k v d) ≡ lookup j d
  lookup-insert_ne k j v d h = ground (arith, lookup-insert k j v d, e.beq_iff k j)

-- A Python set, as a list with no repetition.
module _ {ℓ} {K : Type ℓ} ⦃e : Eq K⦄ where
  unfoldable pub contains : K → List K → Bool
  contains k [] = false
  contains k (j ∷ s) = e.beq j k || contains k s

  -- `s.add(k)`
  unfoldable pub add_key : K → List K → List K
  unfolding contains
  add_key k s = if contains k s then s else k ∷ s

  -- `s.discard(k)`
  unfoldable pub discard : K → List K → List K
  discard k [] = []
  discard k (j ∷ s) = if e.beq j k then discard k s else j ∷ discard k s

  contains-old :
      (k j : K) (s : List K) → contains k s ≡ true → contains j s ≡ (e.beq k j || contains j s)
  contains-old k j s h = elim (Bool-cases (e.beq k j)) [
    | inl same ↦ rw (same, ← (e.beq_iff k j).0 same, h)
    | inr other ↦ rw other
  ]

  pub contains-add_key :
      (k j : K) (s : List K) → contains j (add_key k s) ≡ (e.beq k j || contains j s)
  unfolding add_key contains
  contains-add_key k j s = elim (Bool-cases (contains k s)) [
    | inl old ↦ rw (old, if◌then◌else◌) (contains-old k j s old)
    | inr new ↦ rw (new, if◌then◌else◌)
  ]

  pub contains-discard :
      (k j : K) (s : List K)
      → contains j (discard k s) ≡ (if e.beq k j then false else contains j s)
  unfolding contains discard
  contains-discard k j [] = ground (arith, e.beq_iff k j)
  contains-discard k j (i ∷ s) =
      ground (arith, contains-discard k j s, e.beq_iff k j, e.beq_iff i k, e.beq_iff i j)
