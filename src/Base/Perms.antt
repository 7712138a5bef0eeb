-- ===== src/Base/Perms.antt =====
-- Permutations: shuffles of appended parts, and lengths in native numbers.
use mathlib.Core.Path.{◌≡◌, refl, sym, ◌∙◌}
use mathlib.Core.Logic.{∥∥₁_elim}
use mathlib.Core.List.{List, [], ◌∷◌, ◌++◌, Perm, Permᴰ, append_assoc, perm_append_comm, Mem}
use mathlib.Core.List.{mem-cons_self, mem-cons_of_mem}
use mathlib.Core.List.Perm
use native.Mathlib.Nat.{ℕ_set}
use native.Mathlib.Omega.{arith}
use mathlib.Core.Bool.{Bool, true, ◌&&◌}
use mathlib.Core.Logic.Or
use mathlib.Core.List.{mem-cons, not-mem-nil}
use kova.Base.Lists.{length, In, here, there}

pub Bool-IsSet : IsSet Bool
Bool-IsSet = hlevel

module _ {ℓ} {A : Type ℓ} where
  pub third_first : (a b c d : List A) → Perm (a ++ (b ++ (c ++ d))) ((c ++ a) ++ (b ++ d))
  third_first a b c d =
      rw (sym (append_assoc b c d), sym (append_assoc a (b ++ c) d), sym (append_assoc a b c))
        (rw (append_assoc c a (b ++ d), sym (append_assoc a b d), sym (append_assoc c (a ++ b) d))
          (Perm.append_right d (perm_append_comm (a ++ b) c)))

  pub swap_inner : (a b c d : List A) → Perm ((a ++ b) ++ (c ++ d)) ((a ++ c) ++ (b ++ d))
  swap_inner a b c d =
      rw
        (
          append_assoc a b (c ++ d),
          append_assoc a c (b ++ d),
          sym (append_assoc b c d),
          sym (append_assoc c b d),
        )
        (Perm.append_left a (Perm.append_right d (perm_append_comm b c)))

  length-permᴰ : {xs ys : List A} → Permᴰ xs ys → length xs ≡ length ys
  length-permᴰ Permᴰ.nil = refl
  length-permᴰ (Permᴰ.cons e p) = omega (arith, length-permᴰ p)
  length-permᴰ (Permᴰ.swap e f) = refl
  length-permᴰ (Permᴰ.trans p q) = omega (arith, length-permᴰ p, length-permᴰ q)

  pub length-perm : {xs ys : List A} → Perm xs ys → length xs ≡ length ys
  length-perm p = ∥∥₁_elim p (ℕ_set _ _) length-permᴰ

  pub In-mem : {a : A} {xs : List A} → In a xs → Mem a xs
  In-mem here = mem-cons_self
  In-mem (there i) = mem-cons_of_mem _ (In-mem i)

  -- The test holds of every member.
  unfoldable pub all_of : (A → Bool) → List A → Bool
  all_of p [] = true
  all_of p (x ∷ xs) = p x && all_of p xs

  all_of-permᴰ : (p : A → Bool) {xs ys : List A} → Permᴰ xs ys → all_of p xs ≡ all_of p ys
  unfolding all_of
  all_of-permᴰ p Permᴰ.nil = refl
  all_of-permᴰ p (Permᴰ.cons e q) = rw (e, all_of-permᴰ p q)
  all_of-permᴰ p (Permᴰ.swap {a = a} {b = b} e f) = rw (← e, ← f) (ground arith)
  all_of-permᴰ p (Permᴰ.trans q r) = all_of-permᴰ p q ∙ all_of-permᴰ p r

  pub all_of-perm : (p : A → Bool) {xs ys : List A} → Perm xs ys → all_of p xs ≡ all_of p ys
  all_of-perm p q = ∥∥₁_elim q (Bool-IsSet _ _) (all_of-permᴰ p)

  pub all_of-mem : (p : A → Bool) {a : A} (xs : List A) → all_of p xs ≡ true → Mem a xs → p a ≡ true
  unfolding all_of
  all_of-mem p [] h m = absurd (not-mem-nil m)
  all_of-mem p (x ∷ xs) h m =
      Or.elim (Bool-IsSet _ _) (mem-cons.0 m) (λ e. rw e (ground arith))
        (all_of-mem p xs (ground arith))

  pub all_of-append :
      (p : A → Bool) (xs ys : List A) → all_of p (xs ++ ys) ≡ (all_of p xs && all_of p ys)
  unfolding all_of
  all_of-append p [] ys = refl
  all_of-append p (x ∷ xs) ys = ground (arith, all_of-append p xs ys)
