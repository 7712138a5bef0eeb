-- ===== src/Admission/Fair/Rounds.antt =====
-- The interleaving by rounds (fairQueue in
-- internal/service/buildcontroller/admission.go).
use mathlib.Core.List.Perm
use native.Mathlib.Numerals.{add-one}
use kova.Base.{
  ℕ, zero, suc, ◌+◌, ◌≤◌, ◌<◌, ◌≡◌, refl, inl, inr, Option, none, some, List, [], ◌∷◌, ◌++◌, Perm,
  arith, ltb, length, take, get_elem?, length-append, Bool-cases,
}
use kova.Base.Perms.{swap_inner, length-perm}
use kova.Api.{KovaBuild}
use kova.Admission.{Group, nth_of_each, interleave}
use kova.Admission.Fair.Groups.{flat}

opt_list : Option KovaBuild → List KovaBuild
opt_list o = elim o [ none ↦ [] | some b ↦ b ∷ [] ]

take-suc : (n : ℕ) (bs : List KovaBuild) → take (suc n) bs ≡ take n bs ++ opt_list (get_elem? bs n)
unfolding opt_list
take-suc zero [] = refl
take-suc zero (b ∷ bs) = refl
take-suc (suc n) [] = refl
take-suc (suc n) (b ∷ bs) = rw (take-suc n bs)

take_full : (n : ℕ) (bs : List KovaBuild) → length bs ≤ length (take n bs) → take n bs ≡ bs
take_full zero [] h = refl
take_full zero (b ∷ bs) h = absurd (omega arith)
take_full (suc n) [] h = refl
take_full (suc n) (b ∷ bs) h = rw (take_full n bs (omega arith))

length-take-le : (n : ℕ) (bs : List KovaBuild) → length (take n bs) ≤ length bs
length-take-le zero bs = omega arith
length-take-le (suc n) [] = omega arith
length-take-le (suc n) (b ∷ bs) = omega (arith, length-take-le n bs)

take_short :
    (n : ℕ) (bs : List KovaBuild)
    → length (take n bs) < length bs
    → 0 < length (opt_list (get_elem? bs n))
unfolding opt_list
take_short zero [] h = absurd (omega arith)
take_short zero (b ∷ bs) h = omega arith
take_short (suc n) [] h = absurd (omega arith)
take_short (suc n) (b ∷ bs) h = take_short n bs (omega arith)

-- What the first `n` rounds take.
heads : ℕ → List Group → List KovaBuild
heads n [] = []
heads n ((who, bs) ∷ gs) = take n bs ++ heads n gs

heads-zero : (gs : List Group) → heads 0 gs ≡ []
unfolding heads
heads-zero [] = refl
heads-zero ((who, bs) ∷ gs) = heads-zero gs

heads-suc : (n : ℕ) (gs : List Group) → Perm (heads (suc n) gs) (heads n gs ++ nth_of_each n gs)
unfolding heads nth_of_each opt_list
heads-suc n [] = Perm.refl []
heads-suc n ((who, bs) ∷ gs) = rw (take-suc n bs) (
    Perm.trans (Perm.append_left (take n bs ++ opt_list (get_elem? bs n)) (heads-suc n gs))
      (swap_inner (take n bs) (opt_list (get_elem? bs n)) (heads n gs) (nth_of_each n gs)))

length-heads-le : (n : ℕ) (gs : List Group) → length (heads n gs) ≤ length (flat gs)
unfolding heads flat
length-heads-le n [] = omega arith
length-heads-le n ((who, bs) ∷ gs) = omega (
  arith,
  length-append (take n bs) (heads n gs),
  length-append bs (flat gs),
  length-take-le n bs,
  length-heads-le n gs,
)

heads_full :
    (n : ℕ) (gs : List Group) → length (flat gs) ≤ length (heads n gs) → heads n gs ≡ flat gs
unfolding heads flat
heads_full n [] h = refl
heads_full n ((who, bs) ∷ gs) h = rw (
  take_full n bs (
      omega (
        arith,
        length-append (take n bs) (heads n gs),
        length-append bs (flat gs),
        length-heads-le n gs,
      )),
  heads_full n gs (
      omega (
        arith,
        length-append (take n bs) (heads n gs),
        length-append bs (flat gs),
        length-take-le n bs,
      )),
)

-- A round takes a build while one is left.
nth_of_each-pos :
    (n : ℕ) (gs : List Group)
    → length (heads n gs) < length (flat gs)
    → 0 < length (nth_of_each n gs)
unfolding heads flat nth_of_each opt_list
nth_of_each-pos n [] h = absurd (omega arith)
nth_of_each-pos n ((who, bs) ∷ gs) h = grind (
  arith,
  length-append (take n bs) (heads n gs),
  length-append bs (flat gs),
  length-append (opt_list (get_elem? bs n)) (nth_of_each n gs),
  take_short n bs,
  nth_of_each-pos n gs,
  length-take-le n bs,
)

interleave_from :
    (fuel n : ℕ) (gs : List Group) (ordered : List KovaBuild)
    → Perm ordered (heads n gs)
    → length (flat gs) ≤ length ordered + fuel
    → Perm (interleave fuel (length (flat gs)) n gs ordered) (flat gs)
unfolding interleave
interleave_from zero n gs ordered p h = rw (← heads_full n gs (omega (arith, length-perm p))) p
interleave_from (suc fuel) n gs ordered p h =
    elim (Bool-cases (ltb (length ordered) (length (flat gs)))) [
      | inl short ↦ rw short (
          interleave_from fuel (n + 1) gs (ordered ++ nth_of_each n gs)
            (rw (add-one n)
              (Perm.trans (Perm.append_right (nth_of_each n gs) p) (Perm.symm (heads-suc n gs))))
            (omega (
              arith,
              length-append ordered (nth_of_each n gs),
              nth_of_each-pos n gs (ground (arith, length-perm p)),
            )))
      | inr full ↦ rw (full, ← heads_full n gs (ground (arith, length-perm p))) p
    ]

-- As many rounds as builds are enough, and no build is lost or taken twice.
pub interleave-perm :
    (gs : List Group) → Perm (interleave (length (flat gs)) (length (flat gs)) 0 gs []) (flat gs)
interleave-perm gs =
    interleave_from (length (flat gs)) 0 gs [] (rw (heads-zero gs) (Perm.refl [])) (omega arith)
