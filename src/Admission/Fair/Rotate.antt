-- ===== src/Admission/Fair/Rotate.antt =====
-- The rotation after the last grant (fairQueue in
-- internal/service/buildcontroller/admission.go).
use mathlib.Core.List.{map-append, perm_middle}
use mathlib.Core.List.Perm
use kova.Base.{
  ℕ, ◌≡◌, refl, ap, subst, ◌∙◌, inl, inr, List, [], ◌∷◌, ◌++◌, map, Perm, Bool-cases, ◌==◌, All,
  arith, ==_iff,
}
use mathlib.Core.Path.{◌≡⟨◌⟩◌, ◌∎}
use kova.Base.Text.{Text, text_eq}
use kova.Base.Perms.{third_first}
use kova.Admission.{Group, Tally, tier, put_back, rotate}

put_back-perm {ℓ} : {A : Type ℓ} (xs ys : List A) → Perm (put_back xs ys) (xs ++ ys)
unfolding put_back
put_back-perm [] ys = Perm.refl ys
put_back-perm (x ∷ xs) ys = Perm.trans (put_back-perm xs (x ∷ ys)) (perm_middle xs ys)

put_back-append {ℓ} :
    {A : Type ℓ} (xs ys zs : List A) → put_back (xs ++ ys) zs ≡ put_back ys (put_back xs zs)
unfolding put_back
put_back-append [] ys zs = refl
put_back-append (x ∷ xs) ys zs = put_back-append xs ys (x ∷ zs)

map-put_back {ℓ κ} :
    {A : Type ℓ} {B : Type κ} (f : A → B) (xs ys : List A)
    → map f (put_back xs ys) ≡ put_back (map f xs) (map f ys)
unfolding put_back
map-put_back f [] ys = refl
map-put_back f (x ∷ xs) ys = map-put_back f xs (x ∷ ys)

tier-append : (t : Tally) (n : ℕ) (gs : List Group) → (tier t n gs).0 ++ (tier t n gs).1 ≡ gs
unfolding tier
tier-append t n [] = refl
tier-append t n (g ∷ gs) = ground (arith, tier-append t n gs)

tier-All : (t : Tally) (n : ℕ) (gs : List Group) → All (λ g. t g.0 ≡ n) (tier t n gs).0
unfolding tier
tier-All t n [] = tt
tier-All t n (g ∷ gs) = elim (Bool-cases (t g.0 == n)) [
  | inl e ↦ rw e ((==_iff _ _).0 e, tier-All t n gs)
  | inr e ↦ rw e tt
]

rotated_perm :
    (t : Tally) (n : ℕ) (g : Group) (before gs : List Group)
    → Perm
        (put_back
          (tier t n before).1
          ((tier t n gs).0 ++ put_back (tier t n before).0 (g ∷ (tier t n gs).1)))
        (before ++ g ∷ gs)
rotated_perm t n g before gs = Perm.trans (put_back-perm front (after ++ put_back run (g ∷ back))) (
    Perm.trans (Perm.append_left front (Perm.append_left after (put_back-perm run (g ∷ back)))) (
      Perm.trans (third_first front after run (g ∷ back)) (
        subst (λ l. Perm ((run ++ front) ++ (after ++ g ∷ back)) (l ++ g ∷ gs))
          (tier-append t n before)
          (Perm.append_left (run ++ front) (
            subst (λ l. Perm (after ++ g ∷ back) (g ∷ l)) (tier-append t n gs)
              (perm_middle after back))))))
  where
    run : List Group
    run = (tier t n before).0

    front : List Group
    front = (tier t n before).1

    after : List Group
    after = (tier t n gs).0

    back : List Group
    back = (tier t n gs).1

rotate-perm_from :
    (hash : Text → Text) (last : Text) (t : Tally) (before gs : List Group)
    → Perm (rotate hash last t before gs) (before ++ gs)
unfolding rotate
rotate-perm_from hash last t before [] = put_back-perm before []
rotate-perm_from hash last t before (g ∷ gs) = elim (Bool-cases (text_eq (hash g.0) last)) [
  | inl e ↦ rw e (rotated_perm t (t g.0) g before gs)
  | inr e ↦ rw e (
      Perm.trans (rotate-perm_from hash last t (g ∷ before) gs) (Perm.symm (perm_middle before gs)))
]

pub rotate-perm :
    (hash : Text → Text) (last : Text) (t : Tally) (gs : List Group)
    → Perm (rotate hash last t [] gs) gs
rotate-perm hash last t gs = rotate-perm_from hash last t [] gs

-- Equal numbers pass one another.
run_past {ℓ} :
    {A : Type ℓ} (f : A → ℕ) (n : ℕ) (xs : List A) (zs : List ℕ)
    → All (λ x. f x ≡ n) xs
    → map f xs ++ n ∷ zs ≡ n ∷ (map f xs ++ zs)
run_past f n [] zs h = refl
run_past f n (x ∷ xs) zs h = rw (h.0, run_past f n xs zs h.1)

run_past_back {ℓ} :
    {A : Type ℓ} (f : A → ℕ) (n : ℕ) (xs : List A) (zs : List ℕ)
    → All (λ x. f x ≡ n) xs
    → put_back (map f xs) (n ∷ zs) ≡ n ∷ put_back (map f xs) zs
unfolding put_back
run_past_back f n [] zs h = refl
run_past_back f n (x ∷ xs) zs h = rw (h.0) (run_past_back f n xs (n ∷ zs) h.1)

runs_swap {ℓ} :
    {A : Type ℓ} (f : A → ℕ) (n : ℕ) (xs ys : List A) (zs : List ℕ)
    → All (λ x. f x ≡ n) xs
    → All (λ y. f y ≡ n) ys
    → map f xs ++ put_back (map f ys) (n ∷ zs) ≡ put_back (map f ys) (n ∷ (map f xs ++ zs))
unfolding put_back
runs_swap f n xs [] zs h k = run_past f n xs zs h
runs_swap f n xs (y ∷ ys) zs h k = rw k.0 (
    runs_swap f n xs ys (n ∷ zs) h k.1
    ∙ ap (λ l. put_back (map f ys) (n ∷ l)) (run_past f n xs zs h))

jobs : Tally → Group → ℕ
jobs t g = t g.0

rotated_tally :
    (t : Tally) (g : Group) (before gs : List Group)
    → map (jobs t) (
        put_back
          (tier t (t g.0) before).1
          ((tier t (t g.0) gs).0 ++ put_back (tier t (t g.0) before).0 (g ∷ (tier t (t g.0) gs).1)))
      ≡ map (jobs t) (put_back before (g ∷ gs))
unfolding jobs
rotated_tally t g before gs =
    map (jobs t) (put_back front (after ++ put_back run (g ∷ back)))
    ≡⟨ (simp (map-put_back, map-append)) ⟩
      put_back (map (jobs t) front)
        (map (jobs t) after ++ put_back (map (jobs t) run) (t g.0 ∷ map (jobs t) back))
    ≡⟨ ap (put_back (map (jobs t) front)) (
        runs_swap (jobs t) (t g.0) after run (map (jobs t) back) (tier-All t (t g.0) gs)
          (tier-All t (t g.0) before)) ⟩
      put_back (map (jobs t) front)
        (put_back (map (jobs t) run) (t g.0 ∷ (map (jobs t) after ++ map (jobs t) back)))
    ≡⟨ (simp (map-put_back, map-append, put_back-append)) ⟩
      map (jobs t) (put_back (run ++ front) (g ∷ (after ++ back)))
    ≡⟨ (rw (tier-append t (t g.0) before, tier-append t (t g.0) gs)) ⟩
      map (jobs t) (put_back before (g ∷ gs)) ∎
  where
    run : List Group
    run = (tier t (t g.0) before).0

    front : List Group
    front = (tier t (t g.0) before).1

    after : List Group
    after = (tier t (t g.0) gs).0

    back : List Group
    back = (tier t (t g.0) gs).1

tally-rotate_from :
    (hash : Text → Text) (last : Text) (t : Tally) (before gs : List Group)
    → map (jobs t) (rotate hash last t before gs) ≡ map (jobs t) (put_back before gs)
unfolding rotate put_back
tally-rotate_from hash last t before [] = refl
tally-rotate_from hash last t before (g ∷ gs) = elim (Bool-cases (text_eq (hash g.0) last)) [
  | inl e ↦ rw e (rotated_tally t g before gs)
  | inr e ↦ rw e (tally-rotate_from hash last t (g ∷ before) gs)
]

pub tally-rotate :
    (hash : Text → Text) (last : Text) (t : Tally) (gs : List Group)
    → map (λ g. t g.0) (rotate hash last t [] gs) ≡ map (λ g. t g.0) gs
unfolding jobs put_back
tally-rotate hash last t gs = tally-rotate_from hash last t [] gs
