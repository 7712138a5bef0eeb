-- ===== src/Admission/Fair/Order.antt =====
-- The order of the requesters (fairQueue in internal/service/buildcontroller/admission.go).
use mathlib.Core.List.{Mem, mem-append}
use mathlib.Core.Logic.Or
use mathlib.Core.List.{not-mem-nil}
use mathlib.Core.List.Perm
use native.Mathlib.Bridge.{le_prop}
use kova.Base.{
  ℕ, zero, suc, ◌+◌, ◌≤◌, ◌<◌, ◌≡◌, refl, sym, subst, ◌∙◌, inl, inr, Bool, true, false, List, [],
  ◌∷◌, ◌++◌, map, Perm, Bool-cases, ltb, All, length, arith,
}
use kova.Base.Text.{Text, text_eq, text_eq_iff, text_eq_refl}
use kova.Base.Sort.{sort, insert_by, sort-perm}
use kova.Base.Perms.{all_of, all_of-perm, all_of-mem, all_of-append, length-perm}
use kova.Api.{KovaBuild}
use kova.Admission.{
  Group, Tally, requester_key, add_to_group, group_builds, sort_groups, build_less, requester_less,
  served_order, nth_of_each, interleave, fair_queue,
}
use kova.Admission.Fair.Groups.{flat, sort_groups-perm, group_builds-perm, flat-perm}
use kova.Admission.Fair.Rounds.{interleave-perm}
use kova.Admission.Fair.Rotate.{rotate-perm, tally-rotate}

served_order-perm :
    (hash : Text → Text) (last : Text) (t : Tally) (bs : List KovaBuild)
    → Perm (flat (served_order hash last t bs)) bs
unfolding served_order
served_order-perm hash last t bs =
    Perm.trans (flat-perm (Perm.trans (rotate-perm hash last t _) (sort-perm (requester_less t) _)))
      (Perm.trans (sort_groups-perm _) (group_builds-perm bs))

-- The fair queue is a permutation of the queued builds.
pub fair_queue-perm :
    (hash : Text → Text) (bs : List KovaBuild) (t : Tally) (last : Text)
    → Perm (fair_queue hash bs t last) bs
unfolding fair_queue
fair_queue-perm hash bs t last =
    Perm.trans
      (subst
        (λ n.
          Perm (interleave n n 0 (served_order hash last t bs) [])
            (flat (served_order hash last t bs)))
        (length-perm (served_order-perm hash last t bs))
        (interleave-perm (served_order hash last t bs)))
      (served_order-perm hash last t bs)

-- Each number is at most those after it.
abbrev pub Ascending : List ℕ → Type 0
Ascending [] = Unit
Ascending (n ∷ ns) = All (λ m. n ≤ m) ns × Ascending ns

insert_by-All :
    (t : Tally) (less : Group → Group → Bool) (n : ℕ) (g : Group) (gs : List Group)
    → n ≤ t g.0
    → All (λ m. n ≤ m) (map (λ h. t h.0) gs)
    → All (λ m. n ≤ m) (map (λ h. t h.0) (insert_by less g gs))
unfolding insert_by
insert_by-All t less n g [] h k = (h, tt)
insert_by-All t less n g (x ∷ gs) h k = elim (Bool-cases (less x g)) [
  | inl e ↦ rw e (k.0, insert_by-All t less n g gs h k.1)
  | inr e ↦ rw e (h, k)
]

All-le_trans : (m n : ℕ) (ns : List ℕ) → m ≤ n → All (λ k. n ≤ k) ns → All (λ k. m ≤ k) ns
All-le_trans m n [] h k = tt
All-le_trans m n (x ∷ ns) h k = (omega arith, All-le_trans m n ns h k.1)

requester_less-le : (t : Tally) (g h : Group) → requester_less t g h ≡ true → t g.0 ≤ t h.0
unfolding requester_less
requester_less-le t (l, ls) (r, rs) h = ground arith

not-requester_less-le : (t : Tally) (g h : Group) → requester_less t g h ≡ false → t h.0 ≤ t g.0
unfolding requester_less
not-requester_less-le t (l, ls) (r, rs) h = ground arith

insert_by-Ascending :
    (t : Tally) (g : Group) (gs : List Group)
    → Ascending (map (λ h. t h.0) gs)
    → Ascending (map (λ h. t h.0) (insert_by (requester_less t) g gs))
unfolding insert_by
insert_by-Ascending t g [] h = (tt, tt)
insert_by-Ascending t g (x ∷ gs) h = elim (Bool-cases (requester_less t x g)) [
  | inl e ↦ rw e (
    insert_by-All t (requester_less t) (t x.0) g gs (requester_less-le t x g e) h.0,
    insert_by-Ascending t g gs h.1,
  )
  | inr e ↦ rw e (
    (
      not-requester_less-le t x g e,
      All-le_trans (t g.0) (t x.0) _ (not-requester_less-le t x g e) h.0,
    ),
    h,
  )
]

sort-Ascending :
    (t : Tally) (gs : List Group) → Ascending (map (λ h. t h.0) (sort (requester_less t) gs))
unfolding sort
sort-Ascending t [] = tt
sort-Ascending t (g ∷ gs) = insert_by-Ascending t g _ (sort-Ascending t gs)

-- Requesters are served in ascending order of their active jobs, whatever the rotation after the
-- last grant does.
pub served_order-Ascending :
    (hash : Text → Text) (last : Text) (t : Tally) (bs : List KovaBuild)
    → Ascending (map (λ g. t g.0) (served_order hash last t bs))
unfolding served_order
served_order-Ascending hash last t bs =
    subst Ascending (sym (tally-rotate hash last t _)) (sort-Ascending t _)

-- A group is not empty and holds the builds of its requester.
keyed : Group → Bool
keyed (who, []) = false
keyed (who, b ∷ bs) = all_of (λ c. text_eq (requester_key c) who) (b ∷ bs)

keyed_iff : (g : Group) → keyed g ≡ true → all_of (λ c. text_eq (requester_key c) g.0) g.1 ≡ true
unfolding keyed
keyed_iff (who, []) h = cc
keyed_iff (who, b ∷ bs) h = h

keyed-snoc :
    (who : Text) (bs : List KovaBuild) (b : KovaBuild)
    → keyed (who, bs) ≡ true
    → who ≡ requester_key b
    → keyed (who, bs ++ b ∷ []) ≡ true
unfolding keyed all_of
keyed-snoc who [] b h e = cc
keyed-snoc who (x ∷ bs) b h e = ground (
  arith,
  all_of-append (λ c. text_eq (requester_key c) who) bs (b ∷ []),
  text_eq_iff (requester_key b) who,
)

add_to_group-keyed :
    (b : KovaBuild) (gs : List Group)
    → all_of keyed gs ≡ true
    → all_of keyed (add_to_group b gs) ≡ true
unfolding all_of add_to_group
add_to_group-keyed b [] h = unfold keyed all_of in ground (arith, text_eq_refl (requester_key b))
add_to_group-keyed b ((who, bs) ∷ gs) h = elim (Bool-cases (text_eq who (requester_key b))) [
  | inl e ↦ rw e (ground (arith, keyed-snoc who bs b, (text_eq_iff who (requester_key b)).0 e))
  | inr e ↦ rw e (ground (arith, add_to_group-keyed b gs))
]

group_builds-keyed :
    (bs : List KovaBuild) (gs : List Group)
    → all_of keyed gs ≡ true
    → all_of keyed (group_builds bs gs) ≡ true
unfolding group_builds
group_builds-keyed [] gs h = h
group_builds-keyed (b ∷ bs) gs h = group_builds-keyed bs _ (add_to_group-keyed b gs h)

keyed_of_parts :
    (who : Text) (bs : List KovaBuild)
    → 0 < length bs
    → all_of (λ c. text_eq (requester_key c) who) bs ≡ true
    → keyed (who, bs) ≡ true
unfolding keyed
keyed_of_parts who [] h k = absurd (omega arith)
keyed_of_parts who (b ∷ bs) h k = k

keyed-pos : (who : Text) (bs : List KovaBuild) → keyed (who, bs) ≡ true → 0 < length bs
unfolding keyed
keyed-pos who [] h = cc
keyed-pos who (b ∷ bs) h = omega arith

sort_groups-keyed :
    (gs : List Group) → all_of keyed gs ≡ true → all_of keyed (sort_groups gs) ≡ true
unfolding all_of sort_groups
sort_groups-keyed [] h = refl
sort_groups-keyed ((who, bs) ∷ gs) h = ground (
  arith,
  keyed_of_parts who (sort build_less bs)
      (omega (arith, keyed-pos who bs (ground arith), length-perm (sort-perm build_less bs)))
      (all_of-perm (λ c. text_eq (requester_key c) who) (sort-perm build_less bs)
        ∙ keyed_iff (who, bs) (ground arith)),
  sort_groups-keyed gs,
)

served_order-keyed :
    (hash : Text → Text) (last : Text) (t : Tally) (bs : List KovaBuild)
    → all_of keyed (served_order hash last t bs) ≡ true
unfolding served_order
served_order-keyed hash last t bs =
    all_of-perm keyed (Perm.trans (rotate-perm hash last t _) (sort-perm (requester_less t) _))
    ∙ sort_groups-keyed _ (group_builds-keyed bs [] (unfold all_of in refl))

-- A bound for the first requester bounds all.
flat-le :
    (t : Tally) (n : ℕ) (gs : List Group) (b : KovaBuild)
    → all_of keyed gs ≡ true
    → All (λ m. n ≤ m) (map (λ g. t g.0) gs)
    → Mem b (flat gs)
    → n ≤ t (requester_key b)
unfolding flat all_of
flat-le t n [] b k a m = absurd (not-mem-nil m)
flat-le t n ((who, bs) ∷ gs) b k a m =
    Or.elim le_prop (mem-append.0 m)
      (λ i.
        rw
          ((text_eq_iff (requester_key b) who).0 (
            all_of-mem (λ c. text_eq (requester_key c) who) bs (keyed_iff (who, bs) (ground arith))
              i))
          a.0)
      (flat-le t n gs b (ground arith) a.1)

interleave-head :
    (fuel total n : ℕ) (gs : List Group) (x : KovaBuild) (xs : List KovaBuild)
    → (rest : List KovaBuild) × (interleave fuel total n gs (x ∷ xs) ≡ x ∷ rest)
unfolding interleave
interleave-head zero total n gs x xs = (xs, refl)
interleave-head (suc fuel) total n gs x xs = elim (Bool-cases (ltb (length (x ∷ xs)) total)) [
  | inl e ↦
      let r = interleave-head fuel total (n + 1) gs x (xs ++ nth_of_each n gs) in (r.0, rw e r.1)
  | inr e ↦ (xs, rw e)
]

cons_head : (x y : KovaBuild) (xs ys : List KovaBuild) → x ∷ xs ≡ y ∷ ys → x ≡ y
cons_head x y xs ys e = cc

one_round :
    (n : ℕ) (x : KovaBuild) (xs : List KovaBuild) (who : Text) (gs : List Group)
    → interleave (suc n) (suc n) 0 ((who, x ∷ xs) ∷ gs) []
      ≡ interleave n (suc n) (0 + 1) ((who, x ∷ xs) ∷ gs) (x ∷ nth_of_each 0 gs)
unfolding interleave nth_of_each
one_round n x xs who gs = rw (starts n)
  where
    starts : (k : ℕ) → ltb 0 (suc k) ≡ true
    starts k = ground arith

first_round :
    (t : Tally) (gs : List Group) (n : ℕ) (c : KovaBuild) (rest : List KovaBuild)
    → all_of keyed gs ≡ true
    → Ascending (map (λ g. t g.0) gs)
    → interleave n n 0 gs [] ≡ c ∷ rest
    → (b : KovaBuild) → Mem b (flat gs)
    → t (requester_key c) ≤ t (requester_key b)
unfolding all_of
first_round t gs zero c rest k a e b m = absurd (unfold interleave in cc)
first_round t [] (suc n) c rest k a e b m = absurd (unfold flat in not-mem-nil m)
first_round t ((who, []) ∷ gs) (suc n) c rest k a e b m = absurd (unfold keyed in ground arith)
first_round t ((who, x ∷ xs) ∷ gs) (suc n) c rest k a e b m =
    let r = interleave-head n (suc n) (0 + 1) ((who, x ∷ xs) ∷ gs) x (nth_of_each 0 gs) in
    rw
      (
        ← cons_head x c r.0 rest (sym r.1 ∙ sym (one_round n x xs who gs) ∙ e),
        (text_eq_iff (requester_key x) who).0 (unfold keyed all_of in ground arith),
      )
      (flat-le t (t who) ((who, x ∷ xs) ∷ gs) b k (unfold keyed in omega arith, a.0) m)

-- The first build of the fair queue is of a requester with no more active jobs than any other
-- requester with a queued build.
pub fair_queue-head :
    (hash : Text → Text) (bs : List KovaBuild) (t : Tally) (last : Text) (c : KovaBuild)
    (rest : List KovaBuild)
    → fair_queue hash bs t last ≡ c ∷ rest
    → (b : KovaBuild) → Mem b bs
    → t (requester_key c) ≤ t (requester_key b)
unfolding fair_queue
fair_queue-head hash bs t last c rest e b m =
    first_round t (served_order hash last t bs) (length bs) c rest
      (served_order-keyed hash last t bs) (served_order-Ascending hash last t bs) e b
      (Perm.subset (Perm.symm (served_order-perm hash last t bs)) _ m)
