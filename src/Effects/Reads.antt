-- ===== src/Effects/Reads.antt =====
-- Programs that change nothing: every request of theirs is a read, a question, or a wait.
use kova.Base.{Bool, true, false, Option, none, some, if◌then◌else◌, ◌∷◌}
use kova.Base.Text.{Text}
use kova.Effects.{Error, Result, ok, err, Request, Reply, Prog, ret, call, bind, M, on_ok, require}
use kova.Effects.Traces.{History, event, Always}

abbrev pub IsRead : Request → Type 0
IsRead Request.ctx_err = Unit
IsRead (Request.wait n) = Unit
IsRead (Request.get_config ns n) = Unit
IsRead (Request.get_build ns n) = Unit
IsRead (Request.list_builds ns n) = Unit
IsRead (Request.all_builds ns) = Unit
IsRead (Request.get_pod ns n) = Unit
IsRead (Request.list_pods ns) = Unit
IsRead (Request.get_namespace n) = Unit
IsRead Request.guard_check = Unit
IsRead _ = ⊥

-- Each request is a read; `Q` holds of the result.
pub data Reads {A : Type 0} (Q : A → Type 0) : Prog A → Type 0 where
  done : (a : A) → Q a → Reads Q (ret a)
  asks :
      (r : Request) (k : Reply r → Prog A)
      → IsRead r
      → ((x : Reply r) → Reads Q (k x))
      → Reads Q (call r k)

-- What is asked of a success.
abbrev pub Succeeds : {A : Type 0} → (A → Type 0) → Result A → Type 0
Succeeds Q (ok a) = Q a
Succeeds Q (err e) = Unit

abbrev pub Free : {A : Type 0} → A → Type 0
Free a = Unit

pub Reads-bind :
    {A B : Type 0} (R : A → Type 0) (Q : B → Type 0) (m : Prog A) (f : A → Prog B)
    → Reads R m
    → ((a : A) → R a → Reads Q (f a))
    → Reads Q (bind m f)
Reads-bind R Q m f (Reads.done a q) k = k a q
Reads-bind R Q m f (Reads.asks r c i s) k =
    Reads.asks r (λ x. bind (c x) f) i (λ x. Reads-bind R Q (c x) f (s x) k)

pub Reads-mono :
    {A : Type 0} (R Q : A → Type 0) (m : Prog A) → ((a : A) → R a → Q a) → Reads R m → Reads Q m
Reads-mono R Q m k (Reads.done a q) = Reads.done a (k a q)
Reads-mono R Q m k (Reads.asks r c i s) = Reads.asks r c i (λ x. Reads-mono R Q (c x) k (s x))

module _ {B : Type 0} (Q : B → Type 0) where
  -- A step whose error is passed on.
  pub Reads-seq :
      {A : Type 0} (R : A → Type 0) (m : M A) (f : A → M B)
      → Reads (Succeeds R) m
      → ((a : A) → R a → Reads (Succeeds Q) (f a))
      → Reads (Succeeds Q) (bind m (on_ok f))
  Reads-seq R m f s k = Reads-bind (Succeeds R) (Succeeds Q) m (on_ok f) s next
    where
      next : (a : Result _) → Succeeds R a → Reads (Succeeds Q) (on_ok f a)
      next (ok a) q = k a q
      next (err e) q = Reads.done (err e) tt

  pub Reads-on_ok :
      {A : Type 0} (f : A → M B) (r : Result A)
      → ((a : A) → Reads (Succeeds Q) (f a))
      → Reads (Succeeds Q) (on_ok f r)
  Reads-on_ok f (ok a) k = k a
  Reads-on_ok f (err e) k = Reads.done (err e) tt

-- The rules for programs of whose results nothing is asked.
module _ {B : Type 0} where
  pub Free-ret : (a : B) → Reads Free (ret a)
  Free-ret a = Reads.done a tt

  pub Free-bind :
      {A : Type 0} (m : Prog A) (f : A → Prog B)
      → Reads Free m
      → ((a : A) → Reads Free (f a))
      → Reads Free (bind m f)
  Free-bind m f s k = Reads-bind Free Free m f s (λ a q. k a)

  pub Free-on_ok :
      {A : Type 0} (f : A → M B) (r : Result A)
      → ((a : A) → Reads Free (f a))
      → Reads Free (on_ok f r)
  Free-on_ok f (ok a) k = k a
  Free-on_ok f (err e) k = Reads.done (err e) tt

  pub Free-if :
      (b : Bool) (m n : Prog B) → Reads Free m → Reads Free n → Reads Free (if b then m else n)
  Free-if true m n s t = s
  Free-if false m n s t = t

  pub Free-option :
      {A : Type 0} (o : Option A) (n : Prog B) (f : A → Prog B)
      → Reads Free n
      → ((a : A) → Reads Free (f a))
      → Reads Free (elim o [ none ↦ n | some a ↦ f a ])
  Free-option none n f s k = s
  Free-option (some a) n f s k = k a

  pub Free-result :
      {A : Type 0} (r : Result A) (f : A → Prog B) (g : Error → Prog B)
      → ((a : A) → Reads Free (f a))
      → ((e : Error) → Reads Free (g e))
      → Reads Free (elim r [ ok a ↦ f a | err e ↦ g e ])
  Free-result (ok a) f g s t = s a
  Free-result (err e) f g s t = t e

  pub Free-config :
      (ns n : Text) (k : Reply (Request.get_config ns n) → Prog B)
      → ((x : Reply (Request.get_config ns n)) → Reads Free (k x))
      → Reads Free (call (Request.get_config ns n) k)
  Free-config ns n k s = Reads.asks (Request.get_config ns n) k tt s

  pub Free-build :
      (ns n : Text) (k : Reply (Request.get_build ns n) → Prog B)
      → ((x : Reply (Request.get_build ns n)) → Reads Free (k x))
      → Reads Free (call (Request.get_build ns n) k)
  Free-build ns n k s = Reads.asks (Request.get_build ns n) k tt s

  pub Free-namespace :
      (n : Text) (k : Reply (Request.get_namespace n) → Prog B)
      → ((x : Reply (Request.get_namespace n)) → Reads Free (k x))
      → Reads Free (call (Request.get_namespace n) k)
  Free-namespace n k s = Reads.asks (Request.get_namespace n) k tt s

  pub Free-guard :
      (k : Reply Request.guard_check → Prog B)
      → ((x : Reply Request.guard_check) → Reads Free (k x))
      → Reads Free (call Request.guard_check k)
  Free-guard k s = Reads.asks Request.guard_check k tt s

  pub Free-context :
      (k : Reply Request.ctx_err → Prog B)
      → ((x : Reply Request.ctx_err) → Reads Free (k x))
      → Reads Free (call Request.ctx_err k)
  Free-context k s = Reads.asks Request.ctx_err k tt s

pub Free-require : (b : Bool) (e : Error) → Reads Free (require b e)
Free-require true e = Reads.done (ok tt) tt
Free-require false e = Reads.done (err e) tt

pub Free-seq :
    {A B : Type 0} (m : M A) (f : A → M B)
    → Reads Free m
    → ((a : A) → Reads Free (f a))
    → Reads Free (bind m (on_ok f))
Free-seq m f s k = Free-bind m (on_ok f) s (λ a. Free-on_ok f a k)

pub ruleset read_rules = (
  Free-ret, Free-on_ok, Free-if, Free-option, Free-result, Free-config, Free-build, Free-namespace,
  Free-guard, Free-context, Free-require, Free-bind,
)

pub any_success : {A : Type 0} (r : Result A) → Succeeds Free r
any_success (ok a) = tt
any_success (err e) = tt

-- The rules for programs with a claim on their success.
module _ {B : Type 0} (Q : B → Type 0) where
  pub claim_ok : (a : B) → Q a → Reads (Succeeds Q) (ret (ok a))
  claim_ok a q = Reads.done (ok a) q

  pub claim_err : (e : Error) → Reads (Succeeds Q) (ret (err e))
  claim_err e = Reads.done (err e) tt

  pub claim_seq :
      {A : Type 0} (m : M A) (f : A → M B)
      → Reads Free m
      → ((a : A) → Reads (Succeeds Q) (f a))
      → Reads (Succeeds Q) (bind m (on_ok f))
  claim_seq m f s k =
      Reads-seq Q Free m f (Reads-mono Free (Succeeds Free) m (λ r q. any_success r) s) (λ a q. k a)

  pub claim_on_ok :
      {A : Type 0} (f : A → M B) (r : Result A)
      → ((a : A) → Reads (Succeeds Q) (f a))
      → Reads (Succeeds Q) (on_ok f r)
  claim_on_ok f r k = Reads-on_ok Q f r k

  pub claim_option :
      {A : Type 0} (o : Option A) (n : M B) (f : A → M B)
      → Reads (Succeeds Q) n
      → ((a : A) → Reads (Succeeds Q) (f a))
      → Reads (Succeeds Q) (elim o [ none ↦ n | some a ↦ f a ])
  claim_option none n f s k = s
  claim_option (some a) n f s k = k a

pub ruleset claim_rules = (claim_ok, claim_err, claim_seq, claim_on_ok)

-- A program of reads meets every claim on requests that holds of all reads.
pub Reads-Always :
    {A : Type 0} (P : History → Request → Type 0) (Q : A → Type 0) (h : History) (m : Prog A)
    → ((g : History) (r : Request) → IsRead r → P g r)
    → Reads Q m
    → Always P (λ g a. Q a) h m
Reads-Always P Q h m p (Reads.done a q) = q
Reads-Always P Q h m p (Reads.asks r k i s) =
    (p h r i, λ x. Reads-Always P Q (event r x ∷ h) (k x) p (s x))
