-- ===== src/Prelude/Text.antt =====
-- Rust's `str`, as the list of its code points, with the methods that the program calls.
pub mod Laws
use Prim.Native.Nat.{ℕ, zero, suc}
use Prim.Native.Char.{code}
use Prim.Native.String.{String}
use mathlib.Core.Path.{◌≡◌, refl}
use mathlib.Core.Logic.{◌↔◌}
use mathlib.Core.Bool.{Bool, true, false, not, ◌&&◌, ◌||◌}
use mathlib.Core.Option
use mathlib.Core.Option.{Option, none, some}
use mathlib.Core.List.{List, [], ◌∷◌, ◌++◌, reverse}
use native.Mathlib.Omega.{arith}
use crossbridge.Prelude.Tests.{leb, nat_eq, nat_eq_iff, if◌then◌else◌, PartialEq}
use crossbridge.Prelude.Lists.{any, filter, is_empty}

abbrev pub Text : Type 0
Text = List ℕ

-- The code points of a literal. `String` has its own `[]` and `∷`.
unfoldable pub codes : String → Text
codes String.[] = []
codes (String.◌∷◌ c s) = code c ∷ codes s

unfoldable pub text_eq : Text → Text → Bool
text_eq [] [] = true
text_eq [] (d ∷ t) = false
text_eq (c ∷ s) [] = false
text_eq (c ∷ s) (d ∷ t) = nat_eq c d && text_eq s t

pub text_eq_iff : (s t : Text) → (text_eq s t ≡ true) ↔ (s ≡ t)
unfolding text_eq
text_eq_iff [] [] = ground arith
text_eq_iff [] (d ∷ t) = ground arith
text_eq_iff (c ∷ s) [] = ground arith
text_eq_iff (c ∷ s) (d ∷ t) = ground (arith, text_eq_iff s t)

instance abbrev pub text_has_eq : PartialEq Text
text_has_eq = record { is_eq = text_eq; is_eq_iff = text_eq_iff }

-- `s.strip_prefix(p)`
unfoldable pub strip_prefix : Text → Text → Option Text
strip_prefix [] s = some s
strip_prefix (p ∷ ps) [] = none
strip_prefix (p ∷ ps) (c ∷ s) = if nat_eq p c then strip_prefix ps s else none

-- `s.strip_suffix(p)`
unfoldable pub strip_suffix : Text → Text → Option Text
unfolding strip_prefix
strip_suffix p s = Option.map reverse (strip_prefix (reverse p) (reverse s))

-- `char::is_whitespace`: the code points with the property `White_Space`.
unfoldable pub is_whitespace : ℕ → Bool
is_whitespace c =
    (leb 9 c && leb c 13)
    || nat_eq c 0x20
    || nat_eq c 0x85
    || nat_eq c 0xA0
    || nat_eq c 0x1680
    || (leb 0x2000 c && leb c 0x200A)
    || nat_eq c 0x2028
    || nat_eq c 0x2029
    || nat_eq c 0x202F
    || nat_eq c 0x205F
    || nat_eq c 0x3000

-- `s.trim_start_matches(p)`
unfoldable pub drop_while : (ℕ → Bool) → Text → Text
drop_while p [] = []
drop_while p (c ∷ s) = if p c then drop_while p s else c ∷ s

-- `s.split(p).next()`: the text before the first separator.
unfoldable pub take_until : (ℕ → Bool) → Text → Text
take_until p [] = []
take_until p (c ∷ s) = if p c then [] else c ∷ take_until p s

-- `s.trim_end_matches(p)`
unfoldable pub trim_end_matches : (ℕ → Bool) → Text → Text
unfolding drop_while
trim_end_matches p s = reverse (drop_while p (reverse s))

-- `s.trim()`
unfoldable pub trim : Text → Text
unfolding trim_end_matches drop_while is_whitespace
trim s = trim_end_matches is_whitespace (drop_while is_whitespace s)

-- `s.rsplit(p).next()`: the text after the last separator.
unfoldable pub after_last : (ℕ → Bool) → Text → Text
after_last p [] = []
after_last p (c ∷ s) = if any p s then after_last p s else if p c then s else c ∷ s

-- `s.split_once(pat)`: what stands before and after the first occurrence of `pat`.
unfoldable pub split_once : Text → Text → Option (Text × Text)
unfolding strip_prefix
split_once pat [] = Option.map (λ rest. ([], rest)) (strip_prefix pat [])
split_once pat (c ∷ s) =
    let later = split_once pat s in
    elim (strip_prefix pat (c ∷ s)) [
      | some rest ↦ some ([], rest)
      | none ↦ Option.map (λ (r : Text × Text). (c ∷ r.0, r.1)) later
    ]

-- `s.contains(pat)`
unfoldable pub contains_text : Text → Text → Bool
unfolding split_once
contains_text pat s = elim (split_once pat s) [ some r ↦ true | none ↦ false ]

-- `s.split(p)`: all the pieces between the separators.
cons_head : ℕ → List Text → List Text
cons_head c [] = (c ∷ []) ∷ []
cons_head c (w ∷ ws) = (c ∷ w) ∷ ws

unfoldable pub split : (ℕ → Bool) → Text → List Text
unfolding cons_head
split p [] = [] ∷ []
split p (c ∷ s) = let rest = split p s in if p c then [] ∷ rest else cons_head c rest

-- `s.split_whitespace()`
unfoldable pub split_whitespace : Text → List Text
unfolding split is_whitespace
split_whitespace s = filter (λ w. not (is_empty w)) (split is_whitespace s)

-- `parts.join(sep)`
unfoldable pub join : Text → List Text → Text
join sep [] = []
join sep (w ∷ []) = w
join sep (w ∷ v ∷ ws) = w ++ sep ++ join sep (v ∷ ws)

trimmed : trim (codes "  firmware ") ≡ codes "firmware"
unfolding codes trim
trimmed = refl
