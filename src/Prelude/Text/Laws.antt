-- ===== src/Prelude/Text/Laws.antt =====
-- What the methods of `str` give on texts that are put together from parts.
use Prim.Native.Nat.{ℕ}
use mathlib.Core.Path.{◌≡◌, refl, sym, ap, ◌∙◌}
use mathlib.Core.Logic.{◌≢◌, inl, inr}
use mathlib.Core.Bool.{Bool, true, false, ◌||◌}
use mathlib.Core.Option.{none, some}
use mathlib.Core.List.{[], ◌∷◌, ◌++◌, reverse, reverse-cons, reverse-append, reverse-reverse}
use native.Mathlib.Omega.{arith}
use crossbridge.Prelude.Tests.{Option-cases, Bool-cases, nat_eq}
use crossbridge.Prelude.Lists.{any}
use crossbridge.Prelude.Text.{
  Text, contains_text, strip_prefix, strip_suffix, split_once, drop_while, take_until, after_last,
  trim, trim_end_matches, is_whitespace,
}

pub strip_prefix-append : (p s : Text) → strip_prefix p (p ++ s) ≡ some s
unfolding strip_prefix
strip_prefix-append [] s = refl
strip_prefix-append (c ∷ p) s = ground (arith, strip_prefix-append p s)

pub strip_prefix_sound : (p s : Text) {t : Text} → strip_prefix p s ≡ some t → s ≡ p ++ t
unfolding strip_prefix
strip_prefix_sound [] s h = ground arith
strip_prefix_sound (c ∷ p) [] h = cc
strip_prefix_sound (c ∷ p) (d ∷ s) {t} h = ground (arith, strip_prefix_sound p s {t = t})

pub strip_suffix-append : (p s : Text) → strip_suffix p (s ++ p) ≡ some s
unfolding strip_suffix
strip_suffix-append p s =
    rw (reverse-append s p, strip_prefix-append (reverse p) (reverse s))
      (ap some (reverse-reverse s))

pub strip_suffix_sound : (p s : Text) {t : Text} → strip_suffix p s ≡ some t → s ≡ t ++ p
unfolding strip_suffix
strip_suffix_sound p s {t} h = elim (Option-cases (strip_prefix (reverse p) (reverse s))) [
  | inl none_left ↦ absurd (ground (arith, none_left))
  | inr (r, found) ↦
      sym (reverse-reverse s)
      ∙ ap reverse (strip_prefix_sound (reverse p) (reverse s) found)
      ∙ reverse-append (reverse p) r
      ∙ ap (◌++◌ (reverse r)) (reverse-reverse p)
      ∙ ap (λ w. w ++ p) (ground (arith, found))
]

pub any-append : (q : ℕ → Bool) (s t : Text) → any q (s ++ t) ≡ (any q s || any q t)
any-append q [] t = refl
any-append q (c ∷ s) t = ground (arith, any-append q s t)

-- The text after the last separator holds none, and is what follows any earlier part.
pub any-after_last : (q : ℕ → Bool) (s : Text) → any q (after_last q s) ≡ false
unfolding after_last
any-after_last q [] = refl
any-after_last q (c ∷ s) = ground (arith, any-after_last q s)

pub after_last_none : (q : ℕ → Bool) (s : Text) → any q s ≡ false → after_last q s ≡ s
unfolding after_last
after_last_none q [] h = refl
after_last_none q (c ∷ s) h = ground arith

pub after_last-append :
    (q : ℕ → Bool) (s : Text) (c : ℕ) (t : Text)
    → q c ≡ true
    → any q t ≡ false
    → after_last q (s ++ c ∷ t) ≡ t
unfolding after_last
after_last-append q [] c t hc ht = rw (ht, hc)
after_last-append q (d ∷ s) c t hc ht =
    ground (arith, after_last-append q s c t hc ht, any-append q s (c ∷ t))

pub take_until_none : (q : ℕ → Bool) (s : Text) → any q s ≡ false → take_until q s ≡ s
unfolding take_until
take_until_none q [] h = refl
take_until_none q (c ∷ s) h = ground (arith, take_until_none q s)

pub any-reverse : (q : ℕ → Bool) (s : Text) → any q (reverse s) ≡ any q s
any-reverse q [] = refl
any-reverse q (c ∷ s) =
    rw (reverse-cons c s, any-append q (reverse s) (c ∷ [])) (ground (arith, any-reverse q s))

pub drop_while_none : (q : ℕ → Bool) (s : Text) → any q s ≡ false → drop_while q s ≡ s
unfolding drop_while
drop_while_none q [] h = refl
drop_while_none q (c ∷ s) h = ground arith

-- Trimming a text brings no new code points in.
pub any-drop_while : (q p : ℕ → Bool) (s : Text) → any q s ≡ false → any q (drop_while p s) ≡ false
unfolding drop_while
any-drop_while q p [] h = refl
any-drop_while q p (c ∷ s) h = ground (arith, any-drop_while q p s)

pub any-trim_end :
    (q p : ℕ → Bool) (s : Text) → any q s ≡ false → any q (trim_end_matches p s) ≡ false
unfolding trim_end_matches
any-trim_end q p s h =
    any-reverse q (drop_while p (reverse s)) ∙ any-drop_while q p (reverse s) (any-reverse q s ∙ h)

pub any-trim : (q : ℕ → Bool) (s : Text) → any q s ≡ false → any q (trim s) ≡ false
unfolding trim
any-trim q s h =
    any-trim_end q is_whitespace (drop_while is_whitespace s) (any-drop_while q is_whitespace s h)

pub any-strip_suffix :
    (q : ℕ → Bool) (p s : Text) {t : Text}
    → strip_suffix p s ≡ some t
    → any q s ≡ false
    → any q t ≡ false
any-strip_suffix q p s {t} e h = ground (arith, strip_suffix_sound p s {t = t} e, any-append q t p)

-- A text without white space is not trimmed.
pub trim_end_none : (q : ℕ → Bool) (s : Text) → any q s ≡ false → trim_end_matches q s ≡ s
unfolding trim_end_matches
trim_end_none q s h =
    ap reverse (drop_while_none q (reverse s) (any-reverse q s ∙ h)) ∙ reverse-reverse s

pub trim_none : (s : Text) → any is_whitespace s ≡ false → trim s ≡ s
unfolding trim
trim_none s h =
    ap (trim_end_matches is_whitespace) (drop_while_none is_whitespace s h)
    ∙ trim_end_none is_whitespace s h

pub after_last-skip :
    (q : ℕ → Bool) (s : Text) (c : ℕ) (t : Text)
    → q c ≡ true
    → after_last q (s ++ c ∷ t) ≡ after_last q t
unfolding after_last
after_last-skip q [] c t hc = elim (Bool-cases (any q t)) [
  | inl e ↦ rw e refl
  | inr e ↦ rw (e, hc) (sym (after_last_none q t e))
]
after_last-skip q (d ∷ s) c t hc =
    ground (arith, after_last-skip q s c t hc, any-append q s (c ∷ t))

drop_while-append :
    (q : ℕ → Bool) (t s : Text) → any q t ≡ false → t ≢ [] → drop_while q (t ++ s) ≡ t ++ s
unfolding drop_while
drop_while-append q [] s h n = absurd (n refl)
drop_while-append q (c ∷ t) s h n = ground arith

-- A text whose end has none of the trimmed code points is kept.
pub trim_end-append :
    (q : ℕ → Bool) (s t : Text) → any q t ≡ false → t ≢ [] → trim_end_matches q (s ++ t) ≡ s ++ t
unfolding trim_end_matches
trim_end-append q s t h n =
    ap (λ w. reverse (drop_while q w)) (reverse-append s t)
    ∙ ap reverse (
        drop_while-append q (reverse t) (reverse s) (any-reverse q t ∙ h)
          (λ e. n (sym (reverse-reverse t) ∙ ap reverse e)))
    ∙ ap reverse (sym (reverse-append s t))
    ∙ reverse-reverse (s ++ t)

pub split_once_first :
    (c : ℕ) (ps s t : Text)
    → any (nat_eq c) s ≡ false
    → split_once (c ∷ ps) (s ++ ((c ∷ ps) ++ t)) ≡ some (s, t)
unfolding split_once strip_prefix
split_once_first c ps [] t h = ground (arith, strip_prefix-append ps t)
split_once_first c ps (d ∷ s) t h = ground (arith, split_once_first c ps s t)

pub split_once-none :
    (c : ℕ) (ps s : Text) → any (nat_eq c) s ≡ false → split_once (c ∷ ps) s ≡ none
unfolding split_once strip_prefix
split_once-none c ps [] h = refl
split_once-none c ps (d ∷ s) h = ground (arith, split_once-none c ps s)

pub trim_end-snoc :
    (q : ℕ → Bool) (s : Text) (c : ℕ)
    → q c ≡ true
    → trim_end_matches q (s ++ c ∷ []) ≡ trim_end_matches q s
unfolding trim_end_matches drop_while
trim_end-snoc q s c h = rw (reverse-append s (c ∷ []), h) refl

pub contains_prefix : (c : ℕ) (p s : Text) → contains_text (c ∷ p) ((c ∷ p) ++ s) ≡ true
unfolding contains_text split_once
contains_prefix c p s = ground (arith, strip_prefix-append (c ∷ p) s)
