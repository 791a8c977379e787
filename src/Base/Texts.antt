-- ===== src/Base/Texts.antt =====
-- Go strings: sequences of bytes, with equality and the byte order of `<`.
use Prim.Native.Nat.{ℕ}
use Prim.Native.Char.{code}
use Prim.Native.String.{String}
use mathlib.Core.Path.{◌≡◌, refl, subst}
use mathlib.Core.Logic.{◌↔◌, ◌≢◌, inl, inr}
use mathlib.Core.Bool.{Bool, true, false, ◌&&◌, ◌||◌}
use mathlib.Core.List.{List, [], ◌∷◌}
use native.Mathlib.Omega.{arith}
use parrot_coder.Base.Tests.{◌==◌, ltb, leb, if◌then◌else◌, Bool-cases}

abbrev pub Text : Type 0
Text = List ℕ

-- The bytes of an ASCII literal.
abbrev pub codes : String → Text
codes String.[] = []
codes (String.◌∷◌ c s) = code c ∷ codes s

unfoldable pub text_eq : Text → Text → Bool
text_eq [] [] = true
text_eq [] (b ∷ bs) = false
text_eq (a ∷ as') [] = false
text_eq (a ∷ as') (b ∷ bs) = (a == b) && text_eq as' bs

-- The byte-wise order of Go's `<` on strings.
unfoldable pub text_lt : Text → Text → Bool
text_lt [] [] = false
text_lt [] (b ∷ bs) = true
text_lt (a ∷ as') [] = false
text_lt (a ∷ as') (b ∷ bs) = if a == b then text_lt as' bs else ltb a b

text_eq_sound : (s t : Text) → text_eq s t ≡ true → s ≡ t
unfolding text_eq
text_eq_sound [] [] h = refl
text_eq_sound [] (b ∷ bs) h = ground arith
text_eq_sound (a ∷ as') [] h = ground arith
text_eq_sound (a ∷ as') (b ∷ bs) h = ground (arith, text_eq_sound as' bs)

pub text_eq_refl : (s : Text) → text_eq s s ≡ true
unfolding text_eq
text_eq_refl [] = refl
text_eq_refl (a ∷ as') = ground (arith, text_eq_refl as')

pub text_eq_iff : (s t : Text) → (text_eq s t ≡ true) ↔ (s ≡ t)
text_eq_iff s t = (text_eq_sound s t, λ e. cc (text_eq_refl s))

pub text_lt_irrefl : (s : Text) → text_lt s s ≡ false
unfolding text_lt
text_lt_irrefl [] = refl
text_lt_irrefl (a ∷ as') = ground (arith, text_lt_irrefl as')

pub text_lt_trans : (s t u : Text) → text_lt s t ≡ true → text_lt t u ≡ true → text_lt s u ≡ true
unfolding text_lt
text_lt_trans [] [] u h k = ground arith
text_lt_trans [] (b ∷ bs) [] h k = ground arith
text_lt_trans [] (b ∷ bs) (c ∷ cs) h k = refl
text_lt_trans (a ∷ as') [] u h k = ground arith
text_lt_trans (a ∷ as') (b ∷ bs) [] h k = ground arith
text_lt_trans (a ∷ as') (b ∷ bs) (c ∷ cs) h k = ground (arith, text_lt_trans as' bs cs)

pub text_lt_total : (s t : Text) → text_lt s t ≡ false → s ≢ t → text_lt t s ≡ true
unfolding text_lt
text_lt_total [] [] h n = absurd (n refl)
text_lt_total [] (b ∷ bs) h n = ground arith
text_lt_total (a ∷ as') [] h n = refl
text_lt_total (a ∷ as') (b ∷ bs) h n =
    ground (arith, text_lt_total as' bs, λ (e : a ≡ b) (f : as' ≡ bs). n (cc (e, f)))

-- The ASCII characters of unicode.IsSpace.
abbrev pub is_space : ℕ → Bool
is_space c = c == 32 || (leb 9 c && leb c 13)

pub text_lt_asym : (s t : Text) → text_lt s t ≡ true → text_lt t s ≡ false
unfolding text_lt
text_lt_asym [] [] h = refl
text_lt_asym [] (b ∷ bs) h = refl
text_lt_asym (a ∷ as') [] h = ground arith
text_lt_asym (a ∷ as') (b ∷ bs) h = ground (arith, text_lt_asym as' bs)

-- The order "not below".
pub text_le_trans : (s t u : Text) → text_lt t s ≡ false → text_lt u t ≡ false → text_lt u s ≡ false
unfolding text_lt
text_le_trans [] [] [] h k = refl
text_le_trans [] [] (c ∷ cs) h k = refl
text_le_trans [] (b ∷ bs) [] h k = refl
text_le_trans [] (b ∷ bs) (c ∷ cs) h k = refl
text_le_trans (a ∷ as') [] u h k = ground arith
text_le_trans (a ∷ as') (b ∷ bs) [] h k = ground arith
text_le_trans (a ∷ as') (b ∷ bs) (c ∷ cs) h k = ground (arith, text_le_trans as' bs cs)

pub text_eq_sym : (s t : Text) → text_eq s t ≡ text_eq t s
unfolding text_eq
text_eq_sym [] [] = refl
text_eq_sym [] (b ∷ bs) = refl
text_eq_sym (a ∷ as') [] = refl
text_eq_sym (a ∷ as') (b ∷ bs) = ground (arith, text_eq_sym as' bs)

-- What holds of one key, and of the keys that differ from it, holds of all.
pub each_key {ℓ} :
    (P : Text → Type ℓ) (key other : Text) → P key → (text_eq key other ≡ false → P other) → P other
each_key P key other same differs = elim (Bool-cases (text_eq key other)) [
  | inl e ↦ subst P ((text_eq_iff key other).0 e) same
  | inr e ↦ differs e
]
