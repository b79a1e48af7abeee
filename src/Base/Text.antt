-- ===== src/Base/Text.antt =====
-- Text as a list of code points, and what the program uses of the package strings.
use Prim.Native.Nat.{ℕ, ◌+◌}
use Prim.Native.Char.{code}
use Prim.Native.String.{String}
use mathlib.Core.Path.{◌≡◌, refl}
use mathlib.Core.Logic.{◌↔◌}
use mathlib.Core.Bool.{Bool, true, false, ◌&&◌, ◌||◌}
use mathlib.Core.List.{List, [], ◌∷◌, map}
use native.Mathlib.Omega.{arith}
use mutation_framework.Base.Tests.{leb, ◌==◌, if◌then◌else◌}

abbrev pub Text : Type 0
Text = List ℕ

abbrev pub codes : String → Text
codes String.[] = []
codes (String.◌∷◌ c s) = code c ∷ codes s

-- `==` on strings
unfoldable pub text_eq : Text → Text → Bool
text_eq [] [] = true
text_eq (a ∷ s) (b ∷ t) = a == b && text_eq s t
text_eq _ _ = false

pub text_eq_refl : (s : Text) → text_eq s s ≡ true
unfolding text_eq
text_eq_refl [] = refl
text_eq_refl (a ∷ s) = ground (arith, text_eq_refl s)

pub text_eq_sound : (s t : Text) → text_eq s t ≡ true → s ≡ t
unfolding text_eq
text_eq_sound [] [] h = refl
text_eq_sound (a ∷ s) (b ∷ t) h = ground (arith, text_eq_sound s t)
text_eq_sound _ _ h = ground arith

-- `text_eq` decides equality.
pub text_eq_iff : (s t : Text) → (text_eq s t ≡ true) ↔ (s ≡ t)
text_eq_iff s t = (text_eq_sound s t, λ e. rw e (text_eq_refl t))

is_upper : ℕ → Bool
is_upper c = leb b'A' c && leb c b'Z'

-- unicode.ToLower, as far as an ASCII letter comes out of it: the ASCII capitals, the capital I
-- with a dot and the Kelvin sign.
unfoldable pub to_lower : ℕ → ℕ
unfolding is_upper
to_lower c =
    if is_upper c then c + 32 else if c == 0x130 then b'i' else if c == 0x212a then b'k' else c

-- The folded letter of strings.EqualFold, as far as it is an ASCII one: the capitals, the long s
-- and the Kelvin sign.
unfoldable pub fold : ℕ → ℕ
unfolding is_upper
fold c = if is_upper c then c + 32 else if c == 0x17f then b's' else if c == 0x212a then b'k' else c

-- strings.ToLower, compared with ASCII text
unfoldable pub lower_text : Text → Text
unfolding to_lower
lower_text = map to_lower

-- strings.EqualFold against ASCII text
unfoldable pub equal_fold : Text → Text → Bool
unfolding fold text_eq
equal_fold s t = text_eq (map fold s) (map fold t)

-- Whether a text stands in a list.
unfoldable pub text_mem : Text → List Text → Bool
unfolding text_eq
text_mem s [] = false
text_mem s (t ∷ ts) = text_eq s t || text_mem s ts

-- strings.HasPrefix, of the text before the other
unfoldable pub is_prefix : Text → Text → Bool
is_prefix [] s = true
is_prefix (a ∷ p) [] = false
is_prefix (a ∷ p) (b ∷ s) = a == b && is_prefix p s

-- strings.Contains, of the text before the other
unfoldable pub occurs_in : Text → Text → Bool
unfolding is_prefix
occurs_in p [] = is_prefix p []
occurs_in p (c ∷ s) = is_prefix p (c ∷ s) || occurs_in p s
