-- ===== src/Admission/Fair/Groups.antt =====
-- The queues of the requesters (fairQueue in internal/service/buildcontroller/admission.go).
use mathlib.Core.Path.{sym}
use mathlib.Core.Logic.{∥∥₁_elim}
use mathlib.Core.List.{Perm-prop, Permᴰ, append_assoc, append-nil, perm_middle, perm_append_comm}
use mathlib.Core.List.Perm
use kova.Base.{◌≡◌, refl, List, [], ◌∷◌, ◌++◌, Perm, Bool-cases, inl, inr}
use kova.Base.Text.{text_eq}
use kova.Base.Sort.{sort-perm}
use kova.Api.{KovaBuild}
use kova.Admission.{Group, requester_key, add_to_group, group_builds, sort_groups, build_less}

-- The builds of all groups, group by group.
unfoldable pub flat : List Group → List KovaBuild
flat [] = []
flat ((who, bs) ∷ gs) = bs ++ flat gs

add_to_group-perm :
    (b : KovaBuild) (gs : List Group) → Perm (flat (add_to_group b gs)) (b ∷ flat gs)
unfolding flat add_to_group
add_to_group-perm b [] = Perm.refl (b ∷ [])
add_to_group-perm b ((who, bs) ∷ gs) = elim (Bool-cases (text_eq who (requester_key b))) [
  | inl mine ↦ rw (mine, flat) (rw (append_assoc bs (b ∷ []) (flat gs)) (perm_middle bs (flat gs)))
  | inr other ↦
      rw (other, flat)
        (Perm.trans (Perm.append_left bs (add_to_group-perm b gs)) (perm_middle bs (flat gs)))
]

group_builds-perm_acc :
    (bs : List KovaBuild) (gs : List Group) → Perm (flat (group_builds bs gs)) (bs ++ flat gs)
unfolding group_builds
group_builds-perm_acc [] gs = Perm.refl (flat gs)
group_builds-perm_acc (b ∷ bs) gs =
    Perm.trans (group_builds-perm_acc bs (add_to_group b gs))
      (Perm.trans (Perm.append_left bs (add_to_group-perm b gs)) (perm_middle bs (flat gs)))

pub group_builds-perm : (bs : List KovaBuild) → Perm (flat (group_builds bs [])) bs
unfolding flat
group_builds-perm bs = rw (append-nil bs) at (group_builds-perm_acc bs [])

pub sort_groups-perm : (gs : List Group) → Perm (flat (sort_groups gs)) (flat gs)
unfolding flat sort_groups
sort_groups-perm [] = Perm.refl []
sort_groups-perm ((who, bs) ∷ gs) = Perm.append (sort-perm build_less bs) (sort_groups-perm gs)

flat-cons : (g : Group) (gs : List Group) → flat (g ∷ gs) ≡ g.1 ++ flat gs
unfolding flat
flat-cons (who, bs) gs = refl

flat-permᴰ : {gs hs : List Group} → Permᴰ gs hs → Perm (flat gs) (flat hs)
flat-permᴰ Permᴰ.nil = Perm.refl (flat [])
flat-permᴰ (Permᴰ.cons {a = g} {b = h} {l₁ = gs} {l₂ = hs} e p) =
    rw (flat-cons g gs, flat-cons h hs, e) (Perm.append_left h.1 (flat-permᴰ p))
flat-permᴰ (Permᴰ.swap {a = g} {b = h} {a' = g'} {b' = h'} {l = gs} e f) =
    rw (flat-cons g (h ∷ gs), flat-cons h gs, flat-cons g' (h' ∷ gs), flat-cons h' gs, e, f)
      (rw (sym (append_assoc h'.1 g'.1 (flat gs)), sym (append_assoc g'.1 h'.1 (flat gs)))
        (Perm.append_right (flat gs) (perm_append_comm h'.1 g'.1)))
flat-permᴰ (Permᴰ.trans p q) = Perm.trans (flat-permᴰ p) (flat-permᴰ q)

-- Reordering the groups reorders the builds.
pub flat-perm : {gs hs : List Group} → Perm gs hs → Perm (flat gs) (flat hs)
flat-perm p = ∥∥₁_elim p Perm-prop flat-permᴰ
