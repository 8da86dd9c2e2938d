-- ===== src/Outcome/Simulates.antt =====
-- A second computation does what a first one does, where the first returns: both give related values,
-- or both give the same error.
use go_codec_dagpb.Common.{◌≡◌, refl, Bool, true, false, if◌then◌else◌}
use go_codec_dagpb.Outcome.{Panic, Outcome, ok, err, panic, stuck, ◌>>=◌}
use go_codec_dagpb.Outcome.Follows.{Follows, values, errors}

pub data Simulates {ℓ κ μ} {A : Type ℓ} {B : Type κ} (R : A → B → Type μ)
    : Outcome A → Outcome B → Type (ℓ ⊔ κ ⊔ μ) where
  both : {a : A} {b : B} → R a b → Simulates R (ok a) (ok b)
  same_error : {e : _} → Simulates R (err e) (err e)
  panics : {p : Panic} {n : Outcome B} → Simulates R (panic p) n
  runs_on : {n : Outcome B} → Simulates R stuck n

pub Simulates-bind {ℓ κ μ ℓ' κ' μ'} :
    {A : Type ℓ} {B : Type κ} {R : A → B → Type μ} {A' : Type ℓ'} {B' : Type κ'}
    {Q : A' → B' → Type μ'} {m : Outcome A} {n : Outcome B} {f : A → Outcome A'}
    {g : B → Outcome B'}
    → Simulates R m n
    → ((a : A) (b : B) → R a b → Simulates Q (f a) (g b))
    → Simulates Q (m >>= f) (n >>= g)
Simulates-bind (both {a} {b} r) h = h a b r
Simulates-bind same_error h = same_error
Simulates-bind panics h = panics
Simulates-bind runs_on h = runs_on

pub Simulates-self {ℓ} : {A : Type ℓ} (m : Outcome A) → Simulates (λ a b. a ≡ b) m m
Simulates-self (ok a) = both refl
Simulates-self (err e) = same_error
Simulates-self (panic p) = panics
Simulates-self stuck = runs_on

-- What the first computation follows, the second one follows too.
pub Simulates-Follows {ℓ κ μ ν ξ ζ} :
    {A : Type ℓ} {B : Type κ} {D : Type μ} {R : A → B → Type ν} {Q : A → D → Type ξ}
    {Q' : B → D → Type ζ} {m : Outcome A} {n : Outcome B} {o : Outcome D}
    → Simulates R m n
    → Follows Q m o
    → ((a : A) (b : B) (d : D) → R a b → Q a d → Q' b d)
    → Follows Q' n o
Simulates-Follows (both {a} {b} r) (values {b = d} q) h = values (h a b d r q)
Simulates-Follows same_error errors h = errors
Simulates-Follows panics q h = elim q [ ]
Simulates-Follows runs_on q h = elim q [ ]

pub Simulates-if {ℓ κ μ} :
    {A : Type ℓ} {B : Type κ} {R : A → B → Type μ} (b : Bool) {m m' : Outcome A} {n n' : Outcome B}
    → Simulates R m n
    → Simulates R m' n'
    → Simulates R (if b then m else m') (if b then n else n')
Simulates-if true h h' = h
Simulates-if false h h' = h'
