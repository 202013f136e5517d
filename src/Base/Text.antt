-- ===== src/Base/Text.antt =====
-- Texts as lists of Unicode code points, and the functions of Go's `strings` package that the
-- program walks them with.
use Prim.Native.Char.{code}
use Prim.Native.String.{String}
use home_metrics.Base.Tests.{leb, ◌==◌, if◌then◌else◌}
use Prim.Native.Nat.{ℕ, ◌+◌}
use mathlib.Core.Bool.{Bool, true, false, ◌&&◌, ◌||◌}
use mathlib.Core.Path.{◌≡◌, refl}
use mathlib.Core.List.{List, [], ◌∷◌}
use native.Mathlib.Omega.{arith}

abbrev pub Text : Type 0
Text = List ℕ

abbrev pub codes : String → Text
codes String.[] = []
codes (String.◌∷◌ c s) = code c ∷ codes s

abbrev pub in_range : ℕ → ℕ → ℕ → Bool
in_range lo hi c = leb lo c && leb c hi

-- `unicode.IsSpace`.
unfoldable pub is_space : ℕ → Bool
is_space c =
    in_range 9 13 c
    || (c == 32)
    || (c == 0x85)
    || (c == 0xa0)
    || (c == 0x1680)
    || in_range 0x2000 0x200a c
    || in_range 0x2028 0x2029 c
    || (c == 0x202f)
    || (c == 0x205f)
    || (c == 0x3000)

unfoldable pub trim_left : Text → Text
trim_left [] = []
trim_left (c ∷ s) = if is_space c then trim_left s else c ∷ s

abbrev pub push_trimmed : ℕ → Text → Text
push_trimmed c [] = if is_space c then [] else c ∷ []
push_trimmed c (d ∷ s) = c ∷ d ∷ s

unfoldable pub trim_right : Text → Text
trim_right [] = []
trim_right (c ∷ s) = push_trimmed c (trim_right s)

-- `strings.TrimSpace`.
unfoldable pub trim_space : Text → Text
unfolding trim_left trim_right
trim_space s = trim_right (trim_left s)

-- `strings.ToLower` on ASCII letters; other code points are left as they are.
unfoldable pub to_lower : ℕ → ℕ
to_lower c = if in_range b'A' b'Z' c then c + 32 else c

unfoldable pub eq_text : Text → Text → Bool
eq_text [] [] = true
eq_text (c ∷ s) (d ∷ t) = (c == d) && eq_text s t
eq_text _ _ = false

pub eq_text_refl : (s : Text) → eq_text s s ≡ true
unfolding eq_text
eq_text_refl [] = refl
eq_text_refl (c ∷ s) = ground (arith, eq_text_refl s)

pub eq_text→eq : (s t : Text) → eq_text s t ≡ true → s ≡ t
unfolding eq_text
eq_text→eq [] [] h = refl
eq_text→eq [] (d ∷ t) h = cc
eq_text→eq (c ∷ s) [] h = cc
eq_text→eq (c ∷ s) (d ∷ t) h = ground (arith, eq_text→eq s t)

pub eq_text_sym : (s t : Text) → eq_text s t ≡ eq_text t s
unfolding eq_text
eq_text_sym [] [] = refl
eq_text_sym [] (d ∷ t) = refl
eq_text_sym (c ∷ s) [] = refl
eq_text_sym (c ∷ s) (d ∷ t) = ground (arith, eq_text_sym s t)

-- A text with no space at either end is left as it is.
abbrev pub NoSpaces : Text → Type 0
NoSpaces [] = Unit {0}
NoSpaces (c ∷ s) = (is_space c ≡ false) × NoSpaces s

trim_right-NoSpaces : (s : Text) → NoSpaces s → trim_right s ≡ s
unfolding trim_right
trim_right-NoSpaces [] h = refl
trim_right-NoSpaces (c ∷ []) h = ground arith
trim_right-NoSpaces (c ∷ d ∷ s) h = ground (arith, trim_right-NoSpaces (d ∷ s) h.1)

pub trim_space-NoSpaces : (s : Text) → NoSpaces s → trim_space s ≡ s
unfolding trim_left
trim_space-NoSpaces [] h = unfold trim_space in refl
trim_space-NoSpaces (c ∷ s) h = unfold trim_space in rw h.0 (trim_right-NoSpaces (c ∷ s) h)
