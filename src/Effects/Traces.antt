-- ===== src/Effects/Traces.antt =====
-- What holds of every run of a program. A history is the list of requests with their answers, the
-- last one first.
use kova.Base.{
  ◌⊎◌, inl, inr, subst, if◌then◌else◌, Option, none, some, List, ◌∷◌, In, there, ◌≡◌, refl, Bool,
  true, false,
}
use kova.Effects.{Request, Reply, Prog, ret, call, bind, M, Result, ok, err, on_ok, Error, require}

pub record Event : Type 0 where
  pub request : Request
  pub answer : Reply request

abbrev pub History : Type 0
History = List Event

abbrev pub event : (r : Request) → Reply r → Event
event r x = record { request = r; answer = x }

-- Started after history `h`, whatever the answers: each request meets `P` after the history that
-- leads to it, and the result meets `Q`.
abbrev pub Always :
    {A : Type 0} → (History → Request → Type 0) → (History → A → Type 0) → History → Prog A → Type 0
Always P Q h (ret a) = Q h a
Always P Q h (call r k) = P h r × ((x : Reply r) → Always P Q (event r x ∷ h) (k x))

-- The rule for a sequence.
pub Always-bind :
    {A B : Type 0} (P : History → Request → Type 0) (R : History → A → Type 0)
    (Q : History → B → Type 0) (h : History) (m : Prog A) (f : A → Prog B)
    → ((g : History) (a : A) → R g a → Always P Q g (f a))
    → Always P R h m
    → Always P Q h (bind m f)
Always-bind P R Q h (ret a) f k s = k h a s
Always-bind P R Q h (call r c) f k s =
    (s.0, λ x. Always-bind P R Q (event r x ∷ h) (c x) f k (s.1 x))

-- A weaker claim.
pub Always-mono :
    {A : Type 0} (P : History → Request → Type 0) (R Q : History → A → Type 0) (h : History)
    (m : Prog A)
    → ((g : History) (a : A) → R g a → Q g a)
    → Always P R h m
    → Always P Q h m
Always-mono P R Q h (ret a) k s = k h a s
Always-mono P R Q h (call r c) k s = (s.0, λ x. Always-mono P R Q (event r x ∷ h) (c x) k (s.1 x))

-- A weaker claim on the requests.
pub widen :
    {A : Type 0} (P P' : History → Request → Type 0) (Q : History → A → Type 0) (h : History)
    (m : Prog A)
    → ((g : History) (r : Request) → P g r → P' g r)
    → Always P Q h m
    → Always P' Q h m
widen P P' Q h (ret a) k s = s
widen P P' Q h (call r c) k s = (k h r s.0, λ x. widen P P' Q (event r x ∷ h) (c x) k (s.1 x))

-- Started after history `h`, some answers lead the program to the request `q` after history `g`.
abbrev pub Asks : {A : Type 0} → History → Prog A → History → Request → Type 0
Asks h (ret a) g q = ⊥
Asks h (call r k) g q = ((h ≡ g) × (r ≡ q)) ⊎ ((x : Reply r) × Asks (event r x ∷ h) (k x) g q)

-- What holds of every request holds of one that the program is led to.
pub asked :
    {A : Type 0} (P : History → Request → Type 0) (Q : History → A → Type 0) (h : History)
    (m : Prog A) (g : History) (q : Request)
    → Always P Q h m
    → Asks h m g q
    → P g q
asked P Q h (ret a) g q s i = absurd i
asked P Q h (call r k) g q s (inl (e, f)) = subst (λ k. P k q) e (subst (P h) f s.0)
asked P Q h (call r k) g q s (inr (x, i)) = asked P Q (event r x ∷ h) (k x) g q (s.1 x) i

-- A predicate on the result of a function that may fail: `E` is asked of an error.
abbrev pub Outcome :
    {A : Type 0} → (History → A → Type 0) → (History → Error → Type 0) → History → Result A → Type 0
Outcome Q E h (ok a) = Q h a
Outcome Q E h (err e) = E h e

-- No claim.
abbrev pub Any : {A : Type 0} → History → A → Type 0
Any h a = Unit {0}

-- `g` holds all events of `h`.
abbrev pub Later : History → History → Type 0
Later h g = (e : Event) → In e h → In e g

Later-Always :
    {A : Type 0} (P : History → Request → Type 0) (Q : History → A → Type 0) (h₀ h : History)
    (m : Prog A)
    → Later h₀ h
    → Always P Q h m
    → Always P (λ g a. Later h₀ g × Q g a) h m
Later-Always P Q h₀ h (ret a) l s = (l, s)
Later-Always P Q h₀ h (call r k) l s =
    (s.0, λ x. Later-Always P Q h₀ (event r x ∷ h) (k x) (λ e i. there (l e i)) (s.1 x))

module _ (P : History → Request → Type 0) where
  -- A step whose result, an error too, is looked at.
  pub after :
      {A B : Type 0} (R : History → A → Type 0) (Q : History → B → Type 0) (h : History)
      (m : Prog A) (f : A → Prog B)
      → Always P R h m
      → ((g : History) (a : A) → Later h g → R g a → Always P Q g (f a))
      → Always P Q h (bind m f)
  after R Q h m f s k =
      Always-bind P (λ g a. Later h g × R g a) Q h m f (λ g a r. k g a r.0 r.1)
        (Later-Always P R h h m (λ e i. i) s)

  -- A result that is passed on if it is an error.
  pub passed :
      {A B : Type 0} (Q : History → B → Type 0) (h : History) (r : Result A) (f : A → M B)
      → ((a : A) → r ≡ ok a → Always P (Outcome Q Any) h (f a))
      → Always P (Outcome Q Any) h (on_ok f r)
  passed Q h (ok a) f k = k a refl
  passed Q h (err e) f k = tt

  -- A step whose error is passed on.
  pub seq :
      {A B : Type 0} (R : History → A → Type 0) (Q : History → B → Type 0) (h : History) (m : M A)
      (f : A → M B)
      → Always P (Outcome R Any) h m
      → ((g : History) (a : A) → Later h g → R g a → Always P (Outcome Q Any) g (f a))
      → Always P (Outcome Q Any) h (bind m (on_ok f))
  seq R Q h m f s k =
      after (Outcome R Any) (Outcome Q Any) h m (on_ok f) s (λ g r l o. on_result g r l o)
    where
      on_result :
          (g : History) (r : Result _)
          → Later h g
          → Outcome R Any g r
          → Always P (Outcome Q Any) g (on_ok f r)
      on_result g (ok a) l o = k g a l o
      on_result g (err e) l o = tt

  -- A test with an early return.
  pub checked :
      {B : Type 0} (Q : History → B → Type 0) (h : History) (b : Bool) (e : Error)
      (f : Unit {0} → M B)
      → (b ≡ true → Always P (Outcome Q Any) h (f tt))
      → Always P (Outcome Q Any) h (bind (require b e) (on_ok f))
  checked Q h true e f k = k refl
  checked Q h false e f k = tt

  -- The cases of a result, of an option and of a test, with the equation that holds in each.
  pub by_result :
      {A B : Type 0} (Q : History → B → Type 0) (h : History) (r : Result A) (f : A → Prog B)
      (g : Error → Prog B)
      → ((a : A) → r ≡ ok a → Always P Q h (f a))
      → ((e : Error) → r ≡ err e → Always P Q h (g e))
      → Always P Q h (elim r [ ok a ↦ f a | err e ↦ g e ])
  by_result Q h (ok a) f g k l = k a refl
  by_result Q h (err e) f g k l = l e refl

  pub by_option :
      {A B : Type 0} (Q : History → B → Type 0) (h : History) (o : Option A) (n : Prog B)
      (f : A → Prog B)
      → (o ≡ none → Always P Q h n)
      → ((a : A) → o ≡ some a → Always P Q h (f a))
      → Always P Q h (elim o [ none ↦ n | some a ↦ f a ])
  by_option Q h none n f k l = k refl
  by_option Q h (some a) n f k l = l a refl

  pub by_test :
      {B : Type 0} (Q : History → B → Type 0) (h : History) (b : Bool) (m n : Prog B)
      → (b ≡ true → Always P Q h m)
      → (b ≡ false → Always P Q h n)
      → Always P Q h (if b then m else n)
  by_test Q h true m n k l = k refl
  by_test Q h false m n k l = l refl

  -- Another claim on the successful result, which may use that the history only grew.
  pub kept :
      {A : Type 0} (R Q : History → A → Type 0) (h : History) (m : M A)
      → Always P (Outcome R Any) h m
      → ((g : History) (a : A) → Later h g → R g a → Q g a)
      → Always P (Outcome Q Any) h m
  kept R Q h m s k =
      Always-mono P (λ g r. Later h g × Outcome R Any g r) (Outcome Q Any) h m
        (λ g r o. on_result g r o.0 o.1) (Later-Always P (Outcome R Any) h h m (λ e i. i) s)
    where
      on_result : (g : History) (r : Result _) → Later h g → Outcome R Any g r → Outcome Q Any g r
      on_result g (ok a) l o = k g a l o
      on_result g (err e) l o = tt
