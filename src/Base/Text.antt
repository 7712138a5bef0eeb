-- ===== src/Base/Text.antt =====
-- Go strings: sequences of bytes, each below 256. A literal is given by its code points.
use Prim.Native.Char.{code}
use Prim.Native.String.{String}
use Prim.Native.Nat.{ℕ}
use mathlib.Core.Path.{◌≡◌, refl}
use mathlib.Core.Logic.{◌↔◌, ◌⊎◌}
use mathlib.Core.Bool.{Bool, true, false, ◌&&◌, ◌||◌}
use mathlib.Core.List.{List, [], ◌∷◌, ◌++◌}
use native.Mathlib.Omega.{arith}
use kova.Base.Tests.{ltb, ◌==◌, if◌then◌else◌}

abbrev pub Text : Type 0
Text = List ℕ

abbrev pub text : String → Text
text String.[] = []
text (String.◌∷◌ c s) = code c ∷ text s

-- `a == b`
unfoldable pub text_eq : Text → Text → Bool
text_eq [] [] = true
text_eq [] (y ∷ ys) = false
text_eq (x ∷ xs) [] = false
text_eq (x ∷ xs) (y ∷ ys) = x == y && text_eq xs ys

pub text_eq→eq : (a b : Text) → text_eq a b ≡ true → a ≡ b
unfolding text_eq
text_eq→eq [] [] h = refl
text_eq→eq [] (y ∷ ys) h = cc
text_eq→eq (x ∷ xs) [] h = cc
text_eq→eq (x ∷ xs) (y ∷ ys) h = ground (arith, text_eq→eq xs ys)

pub text_eq_refl : (a : Text) → text_eq a a ≡ true
unfolding text_eq
text_eq_refl [] = refl
text_eq_refl (x ∷ xs) = ground (arith, text_eq_refl xs)

pub text_eq_iff : (a b : Text) → (text_eq a b ≡ true) ↔ (a ≡ b)
text_eq_iff a b = (text_eq→eq a b, λ e. rw e (text_eq_refl b))

-- `a < b`: bytes in order, a prefix first.
unfoldable pub text_lt : Text → Text → Bool
text_lt [] [] = false
text_lt [] (y ∷ ys) = true
text_lt (x ∷ xs) [] = false
text_lt (x ∷ xs) (y ∷ ys) = let rest = text_lt xs ys in ltb x y || (x == y && rest)

pub text_lt_trans : (a b c : Text) → text_lt a b ≡ true → text_lt b c ≡ true → text_lt a c ≡ true
unfolding text_lt
text_lt_trans [] [] c h k = cc
text_lt_trans [] (y ∷ ys) [] h k = cc
text_lt_trans [] (y ∷ ys) (z ∷ zs) h k = refl
text_lt_trans (x ∷ xs) [] c h k = cc
text_lt_trans (x ∷ xs) (y ∷ ys) [] h k = cc
text_lt_trans (x ∷ xs) (y ∷ ys) (z ∷ zs) h k = ground (arith, text_lt_trans xs ys zs)

pub text_lt_total : (a b : Text) → (text_lt a b ≡ true) ⊎ (text_lt b a ≡ true) ⊎ (a ≡ b)
unfolding text_lt
text_lt_total [] [] = ground arith
text_lt_total [] (y ∷ ys) = ground arith
text_lt_total (x ∷ xs) [] = ground arith
text_lt_total (x ∷ xs) (y ∷ ys) = ground (arith, text_lt_total xs ys)

-- `a != ""`
abbrev pub is_empty : Text → Bool
is_empty [] = true
is_empty (x ∷ xs) = false

-- `strings.HasPrefix(s, p)`
unfoldable pub has_prefix : Text → Text → Bool
has_prefix s [] = true
has_prefix [] (y ∷ ys) = false
has_prefix (x ∷ xs) (y ∷ ys) = x == y && has_prefix xs ys

-- `strings.TrimPrefix(s, p)`: the rest, or `s` where it has no such prefix.
cut_prefix : Text → Text → Text → Text
cut_prefix whole s [] = s
cut_prefix whole [] (y ∷ ys) = whole
cut_prefix whole (x ∷ xs) (y ∷ ys) =
    let rest = cut_prefix whole xs ys in if x == y then rest else whole

unfoldable pub trim_prefix : Text → Text → Text
unfolding cut_prefix
trim_prefix s p = cut_prefix s s p

pub trim_prefix-append : (p s : Text) → trim_prefix (p ++ s) p ≡ s
unfolding trim_prefix
trim_prefix-append p s = go (p ++ s) p
  where
    go : (w q : Text) → cut_prefix w (q ++ s) q ≡ s
    go w [] = cut-nil w s
      where
        cut-nil : (v t : Text) → cut_prefix v t [] ≡ t
        cut-nil v [] = refl
        cut-nil v (x ∷ xs) = refl
    go w (y ∷ ys) = ground (arith, go w ys)

-- Every byte passes the test.
unfoldable pub all_bytes : (ℕ → Bool) → Text → Bool
all_bytes p [] = true
all_bytes p (x ∷ xs) = p x && all_bytes p xs

pub is_empty-text_eq : (t : Text) → is_empty t ≡ true → text_eq t [] ≡ true
unfolding text_eq
is_empty-text_eq [] h = refl
is_empty-text_eq (c ∷ t) h = absurd (ground arith)
