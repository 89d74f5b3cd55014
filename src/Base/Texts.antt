-- ===== src/Base/Texts.antt =====
-- Text as the list of its code points, with the string operations that the program uses.
use Prim.Native.Nat.{ℕ, ◌-◌}
use Prim.Native.String.{String}
use Prim.Native.Char.{code}
use mathlib.Core.Path.{◌≡◌, refl}
use mathlib.Core.Logic.{◌↔◌, inl, inr}
use mathlib.Core.Bool.{Bool, true, false, ◌&&◌, ◌||◌}
use mathlib.Core.List.{List, [], ◌∷◌, ◌++◌, map, reverse}
use native.Mathlib.Omega.{arith}
use arb_system.Base.Tests.{leb, ◌==◌, if◌then◌else◌, Bool-cases}

abbrev pub Text : Type 0
Text = List ℕ

abbrev pub text : String → Text
text String.[] = []
text (String.◌∷◌ c s) = code c ∷ text s

abbrev pub text_eq : Text → Text → Bool
text_eq [] [] = true
text_eq [] (_ ∷ _) = false
text_eq (_ ∷ _) [] = false
text_eq (a ∷ s) (b ∷ t) = a == b && text_eq s t

pub text_eq_refl : (s : Text) → text_eq s s ≡ true
text_eq_refl [] = refl
text_eq_refl (a ∷ s) = ground (arith, text_eq_refl s)

pub text_eq→eq : (s t : Text) → text_eq s t ≡ true → s ≡ t
text_eq→eq [] [] h = refl
text_eq→eq [] (_ ∷ _) h = cc
text_eq→eq (_ ∷ _) [] h = cc
text_eq→eq (a ∷ s) (b ∷ t) h = ground (arith, text_eq→eq s t)

pub text_eq_iff : (s t : Text) → (text_eq s t ≡ true) ↔ (s ≡ t)
text_eq_iff s t = (text_eq→eq s t, λ e. ground (arith, e, text_eq_refl s))

-- `str.upper`, on ASCII letters; other code points stay.
abbrev upper_code : ℕ → ℕ
upper_code c = if leb b'a' c && leb c b'z' then c - 32 else c

unfoldable pub upper : Text → Text
upper = map upper_code

-- `c in s`, for one character.
abbrev pub text_has : ℕ → Text → Bool
text_has c [] = false
text_has c (x ∷ s) = x == c || text_has c s

-- The texts before and after the first `c`; all of the text and nothing if there is none.
abbrev pub before : ℕ → Text → Text
before c [] = []
before c (x ∷ s) = if x == c then [] else x ∷ before c s

abbrev pub after : ℕ → Text → Text
after c [] = []
after c (x ∷ s) = if x == c then s else after c s

-- `s.split(c)`: the parts of `s` between the occurrences of `c`, one more than these.
abbrev push_first : ℕ → List Text → List Text
push_first x [] = (x ∷ []) ∷ []
push_first x (p ∷ ps) = (x ∷ p) ∷ ps

unfoldable pub split : ℕ → Text → List Text
split c [] = [] ∷ []
split c (x ∷ s) = let rest = split c s in if x == c then [] ∷ rest else push_first x rest

-- `"->"`
abbrev pub arrow : Text
arrow = b'-' ∷ b'>' ∷ []

-- `s.split("->")`
unfoldable pub split_arrow : Text → List Text
split_arrow [] = [] ∷ []
split_arrow (x ∷ []) = (x ∷ []) ∷ []
split_arrow (x ∷ y ∷ s) =
    let rest = split_arrow s in
    let next = split_arrow (y ∷ s) in
    if x == b'-' && y == b'>' then [] ∷ rest else push_first x next

split_arrow-cons :
    (x : ℕ) (s : Text) → (x == b'-') ≡ false → split_arrow (x ∷ s) ≡ push_first x (split_arrow s)
unfolding split_arrow
split_arrow-cons x [] h = refl
split_arrow-cons x (y ∷ s) h = rw h refl

-- A name without a dash ends at the arrow behind it.
pub split_arrow-append :
    (n s : Text) → text_has b'-' n ≡ false → split_arrow (n ++ (arrow ++ s)) ≡ n ∷ split_arrow s
unfolding split_arrow
split_arrow-append [] s h = refl
split_arrow-append (x ∷ n) s h = elim (Bool-cases (x == b'-')) [
  | inl dash ↦ absurd (ground (arith, dash, h))
  | inr plain ↦
      rw
        (
          split_arrow-cons x (n ++ (arrow ++ s)) plain,
          split_arrow-append n s (ground (arith, plain, h)),
        )
        refl
]

pub split_arrow-last : (n : Text) → text_has b'-' n ≡ false → split_arrow n ≡ n ∷ []
unfolding split_arrow
split_arrow-last [] h = refl
split_arrow-last (x ∷ n) h = elim (Bool-cases (x == b'-')) [
  | inl dash ↦ absurd (ground (arith, dash, h))
  | inr plain ↦ rw (split_arrow-cons x n plain, split_arrow-last n (ground (arith, plain, h))) refl
]

-- `s.strip()`, of ASCII white space.
abbrev is_space : ℕ → Bool
is_space c = c == 32 || (leb 9 c && leb c 13) || (leb 28 c && leb c 31)

abbrev pub lstrip : Text → Text
lstrip [] = []
lstrip (x ∷ s) = let rest = lstrip s in if is_space x then rest else x ∷ s

unfoldable pub strip : Text → Text
strip s = reverse (lstrip (reverse (lstrip s)))
