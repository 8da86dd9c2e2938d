-- ===== src/Outcome/Follows.antt =====
-- One computation follows another: both give related values, or both give the same error. Neither
-- panics or runs out of fuel.
use go_codec_dagpb.Common.{◌≡◌, refl, ◌∙◌, Bool, true, false, if◌then◌else◌}
use go_codec_dagpb.Outcome.{
  Error, Outcome, ok, err, ◌>>=◌, ◌>>◌, reject_if, bind_ok, Returns, value, error,
}

pub data Follows {ℓ κ μ} {A : Type ℓ} {B : Type κ} (R : A → B → Type μ)
    : Outcome A → Outcome B → Type (ℓ ⊔ κ ⊔ μ) where
  values : {a : A} {b : B} → R a b → Follows R (ok a) (ok b)
  errors : {e : _} → Follows R (err e) (err e)

pub Follows-bind {ℓ κ μ ℓ' κ' μ'} :
    {A : Type ℓ} {B : Type κ} {R : A → B → Type μ} {A' : Type ℓ'} {B' : Type κ'}
    {Q : A' → B' → Type μ'} {m : Outcome A} {n : Outcome B} {f : A → Outcome A'}
    {g : B → Outcome B'}
    → Follows R m n
    → ((a : A) (b : B) → R a b → Follows Q (f a) (g b))
    → Follows Q (m >>= f) (n >>= g)
Follows-bind (values {a} {b} r) h = h a b r
Follows-bind errors h = errors

pub Follows-Returns {ℓ κ μ ν} :
    {A : Type ℓ} {B : Type κ} {R : A → B → Type μ} {P : A → Type ν} {m : Outcome A} {n : Outcome B}
    → Follows R m n
    → ((a : A) (b : B) → R a b → P a)
    → Returns P m
Follows-Returns (values {a} {b} r) h = value (h a b r)
Follows-Returns errors h = error

-- Where the related values are equal, the computations are.
pub Follows-equal {ℓ} : {A : Type ℓ} {m n : Outcome A} → Follows (λ a b. a ≡ b) m n → m ≡ n
Follows-equal (values e) = rw e refl
Follows-equal errors = refl

pub Follows-map {ℓ κ μ κ' μ'} :
    {A : Type ℓ} {B : Type κ} {R : A → B → Type μ} {B' : Type κ'} {Q : A → B' → Type μ'}
    {m : Outcome A} {n : Outcome B} (g : B → B')
    → Follows R m n
    → ((a : A) (b : B) → R a b → Q a (g b))
    → Follows Q m (n >>= λ b. ok (g b))
Follows-map g (values {a} {b} r) h = values (h a b r)
Follows-map g errors h = errors

-- A chain that ends in `build`.
pub Follows-build_as {ℓ κ μ ν} :
    {A : Type ℓ} {B : Type κ} {D : Type ν} {R : A → B → Type μ} {m : Outcome A}
    {build : A → Outcome D} {n : Outcome B} (g : B → D)
    → Follows R m n
    → ((a : A) (b : B) → R a b → build a ≡ ok (g b))
    → (m >>= build) ≡ (n >>= λ b. ok (g b))
Follows-build_as g h e = Follows-equal (Follows-bind h λ a b r. rw (e a b r) (values refl))

pub Follows-build {ℓ κ μ} :
    {A : Type ℓ} {B : Type κ} {R : A → B → Type μ} {m : Outcome A} {build : A → Outcome B}
    {n : Outcome B}
    → Follows R m n
    → ((a : A) (b : B) → R a b → build a ≡ ok b)
    → (m >>= build) ≡ n
Follows-build {n} h e = Follows-build_as (λ b. b) h e ∙ bind_ok n

-- Both begin with the same computation.
pub Follows-same {ℓ κ ℓ' κ' μ'} :
    {A : Type ℓ} {P : A → Type κ} {A' : Type ℓ'} {B' : Type κ'} {Q : A' → B' → Type μ'}
    {m : Outcome A} {f : A → Outcome A'} {g : A → Outcome B'}
    → Returns P m
    → ((a : A) → P a → Follows Q (f a) (g a))
    → Follows Q (m >>= f) (m >>= g)
Follows-same (value {a} h) k = k a h
Follows-same error k = errors

pub Follows-reject_if {ℓ κ μ} :
    {A : Type ℓ} {B : Type κ} {Q : A → B → Type μ} (b : Bool) (e : Error) {m : Outcome A}
    {n : Outcome B}
    → Follows Q m n
    → Follows Q (reject_if b e >> m) (reject_if b e >> n)
Follows-reject_if true e h = errors
Follows-reject_if false e h = h

pub Follows-if {ℓ κ μ} :
    {A : Type ℓ} {B : Type κ} {Q : A → B → Type μ} (b : Bool) {m m' : Outcome A} {n n' : Outcome B}
    → Follows Q m n
    → Follows Q m' n'
    → Follows Q (if b then m else m') (if b then n else n')
Follows-if true h h' = h
Follows-if false h h' = h'
