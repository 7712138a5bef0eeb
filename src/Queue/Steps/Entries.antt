-- ===== src/Queue/Steps/Entries.antt =====
-- The entry checks of `validateState` (internal/service/queueadmission/ledger.go) under the changes
-- that the operations make.
use kova.Base.{
  ℕ, ◌+◌, ◌≤◌, ◌<◌, ◌≡◌, refl, sym, ◌∙◌, inl, inr, Bool, true, false, not, ◌&&◌, ◌||◌, List, [],
  ◌∷◌, Option, none, some, arith, leb, ◌==◌, if◌then◌else◌, Bool-cases,
}
use kova.Base.Text.{Text, text_eq, text_eq_refl, text_eq→eq, is_empty}
use kova.Base.Dict.{Dict, lookup, insert, erase}
use kova.Admission.{Tally, bump}
use kova.Queue.{
  Intent, Externals, valid_receipt_uid, valid_digest, identity_ok, link_ok, entries_ok, intents_of,
}
use kova.Queue.Receipt.{is_cleanup_kind}

bump_mono : (w o : Text) (c d : Tally) → c o ≤ d o → bump w c o ≤ bump w d o
unfolding bump
bump_mono w o c d h = omega arith

bump_self : (w : Text) (c : Tally) → bump w c w ≡ c w + 1
unfolding bump
bump_self w c = rw (text_eq_refl w) (omega arith)

entries_mono :
    (x : Externals) (v l : ℕ) (c d : Tally) (m : Dict Intent)
    → ((w : Text) → c w ≤ d w)
    → entries_ok x v l d m ≡ true
    → entries_ok x v l c m ≡ true
unfolding entries_ok
entries_mono x v l c d [] h k = refl
entries_mono x v l c d ((id, e) ∷ m) h k = ground (
  arith,
  bump_mono e.requester_hash e.requester_hash c d (h e.requester_hash),
  entries_mono x v l (bump e.requester_hash c) (bump e.requester_hash d) m
      (λ w. bump_mono e.requester_hash w c d (h w)),
)

-- A new entry within the limit of its requester.
pub entries-insert_new :
    (x : Externals) (v l : ℕ) (c : Tally) (id : Text) (e : Intent) (m : Dict Intent)
    → lookup id m ≡ none
    → identity_ok x id e ≡ true
    → link_ok v e ≡ true
    → c e.requester_hash + intents_of e.requester_hash m < l
    → entries_ok x v l c m ≡ true
    → entries_ok x v l c (insert id e m) ≡ true
unfolding entries_ok lookup insert intents_of
entries-insert_new x v l c id e [] n i k b h = ground (arith, bump_self e.requester_hash c)
entries-insert_new x v l c id e ((j, w) ∷ m) n i k b h = ground (
  arith,
  bump-at w.requester_hash e.requester_hash c,
  entries-insert_new x v l (bump w.requester_hash c) id e m,
)
  where
    bump-at : (u o : Text) (t : Tally) → bump u t o ≡ (if text_eq u o then 1 else 0) + t o
    bump-at u o t = unfold bump in refl

-- An entry changed in place, with its requester kept.
pub entries-update :
    (x : Externals) (v l : ℕ) (c : Tally) (id : Text) (e f : Intent) (m : Dict Intent)
    → lookup id m ≡ some e
    → f.requester_hash ≡ e.requester_hash
    → identity_ok x id f ≡ true
    → link_ok v f ≡ true
    → entries_ok x v l c m ≡ true
    → entries_ok x v l c (insert id f m) ≡ true
unfolding entries_ok lookup insert
entries-update x v l c id e f [] n r i k h = absurd (ground arith)
entries-update x v l c id e f ((j, w) ∷ m) n r i k h = elim (Bool-cases (text_eq j id)) [
  | inl hit ↦
      let q : some w ≡ some e = (rw hit at n) in
      rw (hit, entries_ok) (rw (r ∙ hash-eq q) (ground arith))
  | inr miss ↦
      rw (miss, entries_ok)
        (ground
          (arith, entries-update x v l (bump w.requester_hash c) id e f m (rw miss at n) r i k))
]
  where
    hash-eq : some w ≡ some e → e.requester_hash ≡ w.requester_hash
    hash-eq q = ground arith

pub entries-erase :
    (x : Externals) (v l : ℕ) (c : Tally) (id : Text) (m : Dict Intent)
    → entries_ok x v l c m ≡ true
    → entries_ok x v l c (erase id m) ≡ true
unfolding entries_ok erase
entries-erase x v l c id [] h = refl
entries-erase x v l c id ((j, w) ∷ m) h = ground (
  arith,
  entries_mono x v l c (bump w.requester_hash c) m (λ u. bump-le u),
  entries-erase x v l (bump w.requester_hash c) id m,
)
  where
    bump-le : (u : Text) → c u ≤ bump w.requester_hash c u
    bump-le u = unfold bump in omega arith

pub entries-lookup :
    (x : Externals) (v l : ℕ) (c : Tally) (id : Text) (e : Intent) (m : Dict Intent)
    → lookup id m ≡ some e
    → entries_ok x v l c m ≡ true
    → (identity_ok x id e ≡ true) × (link_ok v e ≡ true)
unfolding entries_ok lookup
entries-lookup x v l c id e [] n h = absurd (ground arith)
entries-lookup x v l c id e ((j, w) ∷ m) n h = elim (Bool-cases (text_eq j id)) [
  | inl hit ↦ let q : some w ≡ some e = (rw hit at n) in rw (← text_eq→eq j id hit) (ground arith)
  | inr miss ↦ entries-lookup x v l (bump w.requester_hash c) id e m (rw miss at n) (ground arith)
]

pub identity_same :
    (x : Externals) (id : Text) (e f : Intent)
    → f.requester_hash ≡ e.requester_hash
    → f.request_digest ≡ e.request_digest
    → f.nonce ≡ e.nonce
    → f.created_at ≡ e.created_at
    → identity_ok x id e ≡ true
    → identity_ok x id f ≡ true
unfolding identity_ok
identity_same x id e f a b c d h = rw (a, b, c, d) h

pub link_bare :
    (v : ℕ) (e : Intent)
    → is_empty e.receipt_uid ≡ true
    → is_empty e.receipt_digest ≡ true
    → is_empty e.cleanup_kind ≡ true
    → link_ok v e ≡ true
unfolding link_ok
link_bare v e a b c = ground arith

pub link_pinned :
    (v : ℕ) (e : Intent) (uid digest : Text)
    → (v == 1) ≡ false
    → is_empty e.cleanup_kind ≡ true
    → valid_receipt_uid uid ≡ true
    → valid_digest digest ≡ true
    → link_ok v (record e { receipt_uid = uid; receipt_digest = digest }) ≡ true
unfolding link_ok
link_pinned v e uid digest h c u d = ground (arith, digest-nonempty digest d, uid-nonempty uid u)
  where
    uid-nonempty : (t : Text) → valid_receipt_uid t ≡ true → is_empty t ≡ false
    uid-nonempty t h = unfold valid_receipt_uid in ground arith

    digest-nonempty : (t : Text) → valid_digest t ≡ true → is_empty t ≡ false
    digest-nonempty [] h = unfold valid_digest kova.Base.Text.has_prefix in ground arith
    digest-nonempty (y ∷ ys) h = refl

pub link_marked :
    (v : ℕ) (e : Intent) (kind : Text)
    → is_empty e.receipt_uid ≡ false
    → is_cleanup_kind kind ≡ true
    → link_ok v e ≡ true
    → link_ok v (record e { cleanup_kind = kind }) ≡ true
unfolding link_ok
link_marked v e kind u k h = ground arith
