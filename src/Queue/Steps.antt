-- ===== src/Queue/Steps.antt =====
-- The steps of the queue ledger (internal/service/queueadmission/ledger.go) as a relation on its
-- states, and its runs.
pub mod Entries
use kova.Base.{
  ℕ, suc, ◌+◌, ◌≤◌, ◌<◌, ◌≡◌, refl, sym, ap, ◌∙◌, ◌⊎◌, inl, inr, Bool, true, false, ◌&&◌, List, [],
  ◌∷◌, Option, none, some, length, arith, leb, ◌==◌, Bool-cases,
}
use kova.Base.Text.{Text, text_eq, text_eq→eq, is_empty}
use kova.Base.Dict.{
  Dict, lookup, insert, erase, Distinct, Distinct-insert, Distinct-erase, length-insert_new,
  length-insert_old, length-erase-le, lookup-insert, lookup-erase,
}
use kova.Queue.{
  Intent, State, Externals, valid_receipt_uid, valid_digest, identity_ok, link_ok, entries_ok,
  validate_state, intents_of, limits_ok,
}
use kova.Queue.Store.{with_intents}
use kova.Queue.Receipt.{is_cleanup_kind}
use Entries.{
  entries-insert_new, entries-update, entries-erase, entries-lookup, link_bare, link_pinned,
  link_marked, identity_same,
}

-- One committed change of the ledger.
-- * reserve: a new key within both limits, with no receipt.
-- * pin: the receipt of an entry that has none and no cleanup.
-- * mark: the cleanup of an entry with a receipt and no cleanup.
-- * release: an entry is removed; in version 2 its cleanup must have been recorded.
pub data Step (x : Externals) (old new : State) : Type 0 where
  reserve :
      (id : Text) (i : Intent)
      → lookup id old.intents ≡ none
      → length old.intents < old.global_limit
      → intents_of i.requester_hash old.intents < old.requester_limit
      → identity_ok x id i ≡ true
      → is_empty i.receipt_uid ≡ true
      → is_empty i.receipt_digest ≡ true
      → is_empty i.cleanup_kind ≡ true
      → new ≡ with_intents old (insert id i old.intents)
      → Step x old new
  pin :
      (id : Text) (e : Intent) (uid digest : Text)
      → lookup id old.intents ≡ some e
      → is_empty e.receipt_uid ≡ true
      → is_empty e.cleanup_kind ≡ true
      → (old.version == 1) ≡ false
      → valid_receipt_uid uid ≡ true
      → valid_digest digest ≡ true
      → new
        ≡ with_intents old
            (insert id (record e { receipt_uid = uid; receipt_digest = digest }) old.intents)
      → Step x old new
  mark :
      (id : Text) (e : Intent) (kind : Text)
      → lookup id old.intents ≡ some e
      → is_empty e.receipt_uid ≡ false
      → is_empty e.cleanup_kind ≡ true
      → is_cleanup_kind kind ≡ true
      → new ≡ with_intents old (insert id (record e { cleanup_kind = kind }) old.intents)
      → Step x old new
  release :
      (id : Text) (e : Intent)
      → lookup id old.intents ≡ some e
      → ((old.version == 1) ≡ false → is_empty e.cleanup_kind ≡ false)
      → new ≡ with_intents old (erase id old.intents)
      → Step x old new

-- The changed map passes the checks on entries and on the number of entries.
record Passes (x : Externals) (old : State) (d : Dict Intent) : Type 0 where
  bounded : length d ≤ old.global_limit
  checked : entries_ok x old.version old.requester_limit (λ who. 0) d ≡ true

valid_of_Passes :
    (x : Externals) (old : State) (d : Dict Intent)
    → validate_state x old ≡ true
    → Passes x old d
    → validate_state x (with_intents old d) ≡ true
unfolding validate_state
valid_of_Passes x old d v p = ground arith

Passes-of_valid : (x : Externals) (s : State) → validate_state x s ≡ true → Passes x s s.intents
unfolding validate_state
Passes-of_valid x s v = ground arith

insert-Passes :
    (x : Externals) (old : State) (id : Text) (e f : Intent)
    → validate_state x old ≡ true
    → lookup id old.intents ≡ some e
    → f.requester_hash ≡ e.requester_hash
    → f.request_digest ≡ e.request_digest
    → f.nonce ≡ e.nonce
    → f.created_at ≡ e.created_at
    → (link_ok old.version e ≡ true → link_ok old.version f ≡ true)
    → validate_state x (with_intents old (insert id f old.intents)) ≡ true
insert-Passes x old id e f v h a b c d k =
    let p = Passes-of_valid x old v in
    let (identity, link) =
      entries-lookup x old.version old.requester_limit (λ who. 0) id e old.intents h p.checked in
    valid_of_Passes x old _ v (record {
      bounded = omega (arith, p.bounded, length-insert_old {0} id f e old.intents h);
      checked =
          entries-update x old.version old.requester_limit (λ who. 0) id e f old.intents h a
            (identity_same x id e f a b c d identity) (k link) p.checked;
    })

-- Every step from a valid ledger leads to a valid ledger: both limits hold and receipt links stay
-- whole.
pub Step-valid :
    (x : Externals) (old new : State)
    → validate_state x old ≡ true
    → Step x old new
    → validate_state x new ≡ true
Step-valid x old new v (Step.reserve id i n g r k u d c e) =
    let p = Passes-of_valid x old v in
    rw e (
      valid_of_Passes x old _ v (record {
        bounded = omega (arith, length-insert_new {0} id i old.intents n);
        checked =
            entries-insert_new x old.version old.requester_limit (λ who. 0) id i old.intents n k
              (link_bare old.version i u d c) (omega arith) p.checked;
      }))
Step-valid x old new v (Step.pin id f uid digest h u c w q d e) = rw e (
    insert-Passes x old id f (record f { receipt_uid = uid; receipt_digest = digest }) v h refl refl
      refl refl (λ _. link_pinned old.version f uid digest w c q d))
Step-valid x old new v (Step.mark id f kind h u c k e) = rw e (
    insert-Passes x old id f (record f { cleanup_kind = kind }) v h refl refl refl refl
      (link_marked old.version f kind u k))
Step-valid x old new v (Step.release id f h c e) =
    let p = Passes-of_valid x old v in
    rw e (
      valid_of_Passes x old _ v (record {
        bounded = omega (arith, p.bounded, length-erase-le {0} id old.intents);
        checked =
            entries-erase x old.version old.requester_limit (λ who. 0) id old.intents p.checked;
      }))

Step-Distinct :
    (x : Externals) (old new : State) → Distinct old.intents → Step x old new → Distinct new.intents
Step-Distinct x old new v (Step.reserve id i n g r k u d c e) =
    rw e (Distinct-insert id i old.intents v)
Step-Distinct x old new v (Step.pin id f uid digest h u c w q d e) =
    rw e
      (Distinct-insert id (record f { receipt_uid = uid; receipt_digest = digest }) old.intents v)
Step-Distinct x old new v (Step.mark id f kind h u c k e) =
    rw e (Distinct-insert id (record f { cleanup_kind = kind }) old.intents v)
Step-Distinct x old new v (Step.release id f h c e) = rw e (Distinct-erase id old.intents v)

-- What an entry may become while it stays: its identity is fixed, and its receipt and its cleanup are
-- written once.
pub record Extends (e f : Intent) : Type 0 where
  pub same_nonce : f.nonce ≡ e.nonce
  pub same_requester : f.requester_hash ≡ e.requester_hash
  pub same_digest : f.request_digest ≡ e.request_digest
  pub same_time : f.created_at ≡ e.created_at
  pub receipt_once :
      is_empty e.receipt_uid ≡ false
      → (f.receipt_uid ≡ e.receipt_uid) × (f.receipt_digest ≡ e.receipt_digest)
  pub cleanup_once : is_empty e.cleanup_kind ≡ false → f.cleanup_kind ≡ e.cleanup_kind

Extends-refl : (e : Intent) → Extends e e
Extends-refl e = record {
  same_nonce = refl;
  same_requester = refl;
  same_digest = refl;
  same_time = refl;
  receipt_once = λ h. (refl, refl);
  cleanup_once = λ h. refl;
}

Extends-trans : (e f g : Intent) → Extends e f → Extends f g → Extends e g
Extends-trans e f g p q = record {
  same_nonce = q.same_nonce ∙ p.same_nonce;
  same_requester = q.same_requester ∙ p.same_requester;
  same_digest = q.same_digest ∙ p.same_digest;
  same_time = q.same_time ∙ p.same_time;
  receipt_once =
      λ h. let (a, b) = p.receipt_once h in let (c, d) = q.receipt_once (rw a h) in (c ∙ a, d ∙ b);
  cleanup_once = λ h. q.cleanup_once (rw (p.cleanup_once h) h) ∙ p.cleanup_once h;
}

-- The fate of an entry in one step.
abbrev pub Fate : State → Text → Intent → State → Type 0
Fate old id e new =
    ((f : Intent) × (lookup id new.intents ≡ some f) × Extends e f)
    ⊎ ((lookup id new.intents ≡ none)
        × ((old.version == 1) ≡ false → is_empty e.cleanup_kind ≡ false))

same_entry : (a b : Intent) → some a ≡ some b → a ≡ b
same_entry a b e = ground arith

update_fate :
    (d : Dict Intent) (id key : Text) (e f g : Intent)
    → lookup id d ≡ some e
    → lookup key d ≡ some f
    → Extends f g
    → (h : Intent) × (lookup id (insert key g d) ≡ some h) × Extends e h
update_fate d id key e f g found there ext = elim (Bool-cases (text_eq key id)) [
  | inl hit ↦
      let q : some f ≡ some e =
        (sym there ∙ ap (λ k. lookup k d) (text_eq→eq key id hit) ∙ found) in
      (g, rw (lookup-insert key id g d, hit) refl, rw (← same_entry f e q) ext)
  | inr miss ↦ (e, rw (lookup-insert key id g d, miss) found, Extends-refl e)
]

step-Fate :
    (x : Externals) (old new : State) (id : Text) (e : Intent)
    → Distinct old.intents
    → lookup id old.intents ≡ some e
    → Step x old new
    → Fate old id e new
step-Fate x old new id e v found (Step.reserve key i n g r k u d c eq) =
    elim (Bool-cases (text_eq key id)) [
      | inl hit ↦
          absurd
            (no_entry (sym n ∙ ap (λ k'. lookup k' old.intents) (text_eq→eq key id hit) ∙ found))
      | inr miss ↦
          rw eq (inl (e, rw (lookup-insert key id i old.intents, miss) found, Extends-refl e))
    ]
  where
    no_entry : none ≡ some e → ⊥
    no_entry q = ground arith
step-Fate x old new id e v found (Step.pin key f uid digest h u c w q d eq) =
    rw eq (inl (update_fate old.intents id key e f _ found h ext))
  where
    ext : Extends f (record f { receipt_uid = uid; receipt_digest = digest })
    ext = record {
      same_nonce = refl;
      same_requester = refl;
      same_digest = refl;
      same_time = refl;
      receipt_once = λ a. absurd (contra a u);
      cleanup_once = λ a. refl;
    }
      where
        contra : {b : Bool} → b ≡ false → b ≡ true → ⊥
        contra a b = ground arith
step-Fate x old new id e v found (Step.mark key f kind h u c k eq) =
    rw eq (inl (update_fate old.intents id key e f _ found h ext))
  where
    ext : Extends f (record f { cleanup_kind = kind })
    ext = record {
      same_nonce = refl;
      same_requester = refl;
      same_digest = refl;
      same_time = refl;
      receipt_once = λ a. (refl, refl);
      cleanup_once = λ a. absurd (contra a c);
    }
      where
        contra : {b : Bool} → b ≡ false → b ≡ true → ⊥
        contra a b = ground arith
step-Fate x old new id e v found (Step.release key f h c eq) = elim (Bool-cases (text_eq key id)) [
  | inl hit ↦
      let q : some f ≡ some e =
        (sym h ∙ ap (λ k. lookup k old.intents) (text_eq→eq key id hit) ∙ found) in
      rw eq (inr (rw (lookup-erase key id old.intents v, hit) refl, rw (← same_entry f e q) c))
  | inr miss ↦ rw eq (inl (e, rw (lookup-erase key id old.intents v, miss) found, Extends-refl e))
]

-- What holds of every state of the ledger.
pub record Sound (x : Externals) (s : State) : Type 0 where
  pub valid : validate_state x s ≡ true
  pub distinct : Distinct s.intents

pub Step-Sound : (x : Externals) (old new : State) → Sound x old → Step x old new → Sound x new
Step-Sound x old new v s = record {
  valid = Step-valid x old new v.valid s;
  distinct = Step-Distinct x old new v.distinct s;
}

-- The states that committed steps lead to, by any replicas in any order.
pub data Reach (x : Externals) (s : State) : State → Type 0 where
  here : Reach x s s
  next : {t u : State} → Reach x s t → Step x t u → Reach x s u

pub Reach-Sound : (x : Externals) (s t : State) → Sound x s → Reach x s t → Sound x t
Reach-Sound x s s' v here = v
Reach-Sound x s t v (next {t = u} r st) = Step-Sound x u t (Reach-Sound x s u v r) st

pub Step-version : (x : Externals) (old new : State) → Step x old new → new.version ≡ old.version
Step-version x old new (Step.reserve id i n g r k u d c e) = rw e
Step-version x old new (Step.pin id f uid digest h u c w q d e) = rw e
Step-version x old new (Step.mark id f kind h u c k e) = rw e
Step-version x old new (Step.release id f h c e) = rw e

-- The key was empty in some state on the way, when its entry had a recorded cleanup, in version 2.
pub data Gone (x : Externals) (s : State) (id : Text) (e : Intent) : State → Type 0 where
  gone :
      {t u v : State} (f : Intent)
      → Reach x s t
      → lookup id t.intents ≡ some f
      → Extends e f
      → ((t.version == 1) ≡ false → is_empty f.cleanup_kind ≡ false)
      → Step x t u
      → lookup id u.intents ≡ none
      → Reach x u v
      → Gone x s id e v

-- From a valid ledger with distinct keys, along any steps, an entry keeps its nonce, requester,
-- request and time and has its receipt and cleanup written at most once each, or it has left by a
-- step that in version 2 found its cleanup recorded.
pub entry_history :
    (x : Externals) (s t : State) (id : Text) (e : Intent)
    → Sound x s
    → lookup id s.intents ≡ some e
    → Reach x s t
    → ((f : Intent) × (lookup id t.intents ≡ some f) × Extends e f) ⊎ Gone x s id e t
entry_history x s s' id e v found here = inl (e, found, Extends-refl e)
entry_history x s t id e v found (next {t = u} r st) = elim (entry_history x s u id e v found r) [
  | inr (gone f r' l ext c st' none_left r'') ↦ inr (gone f r' l ext c st' none_left (next r'' st))
  | inl (f, l, ext) ↦ elim (step-Fate x u t id f (Reach-Sound x s u v r).distinct l st) [
    | inl (g, l', ext') ↦ inl (g, l', Extends-trans e f g ext ext')
    | inr (l', c) ↦ inr (gone f r l ext c st l' here)
  ]
]
