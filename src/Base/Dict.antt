-- ===== src/Base/Dict.antt =====
-- A Go map with string keys: an association list, one entry for each key. Reading a missing key
-- gives `none`; the model says what the source makes of that.
use Prim.Native.Nat.{suc, ◌≤◌}
use mathlib.Core.Path.{◌≡◌, refl}
use mathlib.Core.Logic.{inl, inr}
use mathlib.Core.Bool.{false}
use mathlib.Core.Option.{Option, none, some}
use mathlib.Core.List.{List, [], ◌∷◌}
use native.Mathlib.Omega.{arith}
use kova.Base.Tests.{if◌then◌else◌, Bool-cases}
use kova.Base.Lists.{length}
use kova.Base.Text.{Text, text_eq, text_eq_iff, text_eq→eq, text_eq_refl}

abbrev pub Dict {ℓ} : Type ℓ → Type ℓ
Dict V = List (Text × V)

module _ {ℓ} {V : Type ℓ} where
  unfoldable pub lookup : Text → Dict V → Option V
  lookup k [] = none
  lookup k ((j, v) ∷ d) = if text_eq j k then some v else lookup k d

  -- `d[k] = v`
  unfoldable pub insert : Text → V → Dict V → Dict V
  insert k v [] = (k, v) ∷ []
  insert k v ((j, w) ∷ d) = if text_eq j k then (k, v) ∷ d else (j, w) ∷ insert k v d

  -- `delete(d, k)`
  unfoldable pub erase : Text → Dict V → Dict V
  erase k [] = []
  erase k ((j, w) ∷ d) = if text_eq j k then d else (j, w) ∷ erase k d

  -- No entry has the key.
  abbrev pub Absent : Text → Dict V → Type 0
  Absent k [] = Unit
  Absent k ((j, w) ∷ d) = (text_eq j k ≡ false) × Absent k d

  -- Each key has one entry: what makes such a list a map.
  abbrev pub Distinct : Dict V → Type 0
  Distinct [] = Unit
  Distinct ((j, w) ∷ d) = Absent j d × Distinct d

  pub lookup-insert :
      (k j : Text) (v : V) (d : Dict V)
      → lookup j (insert k v d) ≡ (if text_eq k j then some v else lookup j d)
  unfolding lookup insert
  lookup-insert k j v [] = refl
  lookup-insert k j v ((i, w) ∷ d) =
      ground (arith, text_eq_iff k j, text_eq_iff i k, text_eq_iff i j, lookup-insert k j v d)

  pub lookup-insert_self : (k : Text) (v : V) (d : Dict V) → lookup k (insert k v d) ≡ some v
  lookup-insert_self k v d = simp (lookup-insert, text_eq_refl)

  pub Absent-lookup : (k : Text) (d : Dict V) → Absent k d → lookup k d ≡ none
  unfolding lookup
  Absent-lookup k [] h = refl
  Absent-lookup k ((j, w) ∷ d) h = ground (arith, Absent-lookup k d)

  pub lookup-Absent : (k : Text) (d : Dict V) → lookup k d ≡ none → Absent k d
  unfolding lookup
  lookup-Absent k [] h = tt
  lookup-Absent k ((j, w) ∷ d) h = ground (arith, lookup-Absent k d)

  pub Absent-insert :
      (i k : Text) (v : V) (d : Dict V) → text_eq k i ≡ false → Absent i d → Absent i (insert k v d)
  unfolding insert
  Absent-insert i k v [] n h = (n, tt)
  Absent-insert i k v ((j, w) ∷ d) n h = ground (arith, Absent-insert i k v d n)

  pub Distinct-insert : (k : Text) (v : V) (d : Dict V) → Distinct d → Distinct (insert k v d)
  unfolding insert
  Distinct-insert k v [] h = (tt, tt)
  Distinct-insert k v ((j, w) ∷ d) h = elim (Bool-cases (text_eq j k)) [
    | inl e ↦ rw e (subst-Absent (text_eq→eq j k e) h.0, h.1)
    | inr n ↦ rw n (
      Absent-insert j k v d (ground (arith, text_eq_iff j k, text_eq_iff k j)) h.0,
      Distinct-insert k v d h.1,
    )
  ]
    where
      subst-Absent : j ≡ k → Absent j d → Absent k d
      subst-Absent e a = rw (← e) a

  pub Absent-erase : (i k : Text) (d : Dict V) → Absent i d → Absent i (erase k d)
  unfolding erase
  Absent-erase i k [] h = tt
  Absent-erase i k ((j, w) ∷ d) h = ground (arith, Absent-erase i k d)

  pub Distinct-erase : (k : Text) (d : Dict V) → Distinct d → Distinct (erase k d)
  unfolding erase
  Distinct-erase k [] h = tt
  Distinct-erase k ((j, w) ∷ d) h = ground (arith, Absent-erase j k d h.0, Distinct-erase k d h.1)

  -- With one entry for each key, erasing removes the key and no other.
  pub lookup-erase :
      (k j : Text) (d : Dict V)
      → Distinct d
      → lookup j (erase k d) ≡ (if text_eq k j then none else lookup j d)
  unfolding lookup erase
  lookup-erase k j [] h = ground arith
  lookup-erase k j ((i, w) ∷ d) h = ground (
    arith,
    text_eq_iff k j,
    text_eq_iff i k,
    text_eq_iff i j,
    lookup-erase k j d h.1,
    Absent-lookup i d h.0,
  )

  pub lookup-erase_other :
      (k j : Text) (d : Dict V) → text_eq k j ≡ false → lookup j (erase k d) ≡ lookup j d
  unfolding lookup erase
  lookup-erase_other k j [] h = refl
  lookup-erase_other k j ((i, w) ∷ d) h =
      ground (arith, text_eq_iff k j, text_eq_iff i k, text_eq_iff i j, lookup-erase_other k j d h)

  -- `len(d)`
  pub length-insert_new :
      (k : Text) (v : V) (d : Dict V) → lookup k d ≡ none → length (insert k v d) ≡ suc (length d)
  unfolding lookup insert
  length-insert_new k v [] h = refl
  length-insert_new k v ((j, w) ∷ d) h = ground (arith, length-insert_new k v d)

  pub length-insert_old :
      (k : Text) (v w : V) (d : Dict V) → lookup k d ≡ some w → length (insert k v d) ≡ length d
  unfolding lookup insert
  length-insert_old k v u [] h = cc
  length-insert_old k v u ((j, w) ∷ d) h = ground (arith, length-insert_old k v u d)

  pub length-erase-le : (k : Text) (d : Dict V) → length (erase k d) ≤ length d
  unfolding erase
  length-erase-le k [] = omega arith
  length-erase-le k ((j, w) ∷ d) = ground (arith, length-erase-le k d)
