-- ===== src/Outcome.antt =====
-- What a call of the Go code comes to: a value, an error value, a panic, or a loop of the model that
-- ran out of fuel.
pub mod Follows
pub mod Simulates
pub mod AllOk
use go_codec_dagpb.Common.{◌≡◌, refl, ◌⊎◌, inl, inr, Bool, true, false, ℕ, ℤ, Bytes, if◌then◌else◌}
use mathlib.Core.Path.{subst}

-- The errors by the place that makes them; what a message interpolates is an argument.
pub data Error : Type 0 where
  -- unmarshal.go
  parse_error : ℕ → Error
  node_wire_type : ℕ → Error
  duplicate_data duplicate_links : Error
  node_field : ℕ → Error
  duplicate_hash name_before_hash tsize_before_hash : Error
  hash_wire_type : ℕ → Error
  invalid_hash : ℕ → Error
  duplicate_name tsize_before_name : Error
  name_wire_type : ℕ → Error
  duplicate_tsize : Error
  tsize_wire_type : ℕ → Error
  link_field : ℕ → Error
  missing_hash : Error
  -- marshal.go
  link_without_hash : Error
  negative_tsize : ℕ → Error
  -- ipldsch_satisfaction.go
  repeated_key : Bytes → Error
  invalid_key : Bytes → Error
  missing_field : Bytes → Error
  no_such_field : Bytes → Error
  not_exists : Bytes → Error
  no_such_index : ℤ → Error
  invalid_segment : Error → Error
  iterator_overread : Error
  wrong_kind : Error
  -- an error value of a reader, a writer or an iterator of other code
  foreign : ℕ → Error

pub data Panic : Type 0 where
  invalid_state : Panic
  unreachable : Panic
  nil_pointer : Panic
  out_of_range : Panic
  rejected_unbox : Panic
  wrong_type : Panic

pub data Outcome {ℓ} (A : Type ℓ) : Type ℓ where
  ok : A → Outcome A
  err : Error → Outcome A
  panic : Panic → Outcome A
  stuck : Outcome A

infixl 5 ◌>>=◌ ◌>>◌
abbrev pub ◌>>=◌ {ℓ κ} : {A : Type ℓ} {B : Type κ} → Outcome A → (A → Outcome B) → Outcome B
ok a >>= f = f a
err e >>= f = err e
panic p >>= f = panic p
stuck >>= f = stuck

abbrev pub ◌>>◌ {ℓ} : {B : Type ℓ} → Outcome (Unit {0}) → Outcome B → Outcome B
m >> k = m >>= λ _. k

-- An early `return err` where the test holds.
abbrev pub reject_if : Bool → Error → Outcome (Unit {0})
reject_if true e = err e
reject_if false e = ok tt

-- The call returns, with a value of which `P` holds or with an error: no panic, no lack of fuel.
pub data Returns {ℓ κ} {A : Type ℓ} (P : A → Type κ) : Outcome A → Type (ℓ ⊔ κ) where
  value : {a : A} → P a → Returns P (ok a)
  error : {e : Error} → Returns P (err e)

module _ {ℓ κ ℓ' κ'} {A : Type ℓ} {B : Type ℓ'} {P : A → Type κ} {Q : B → Type κ'} where
  pub Returns-bind :
      {m : Outcome A} {f : A → Outcome B}
      → Returns P m
      → ((a : A) → P a → Returns Q (f a))
      → Returns Q (m >>= f)
  Returns-bind (value {a} h) k = k a h
  Returns-bind error k = error

pub Returns-if {ℓ κ} :
    {B : Type ℓ} {Q : B → Type κ} (b : Bool) {x y : Outcome B}
    → Returns Q x
    → Returns Q y
    → Returns Q (if b then x else y)
Returns-if true hx hy = hx
Returns-if false hx hy = hy

module _ {ℓ κ μ} {A : Type ℓ} {B : Type κ} {D : Type μ} where
  pub bind_assoc :
      (m : Outcome A) (f : A → Outcome B) (g : B → Outcome D)
      → ((m >>= f) >>= g) ≡ (m >>= λ a. f a >>= g)
  bind_assoc (ok a) f g = refl
  bind_assoc (err e) f g = refl
  bind_assoc (panic p) f g = refl
  bind_assoc stuck f g = refl

  -- A step whose result is dressed by `g` before the rest.
  pub bind_dressed :
      (m : Outcome A) (g : A → B) (f : B → Outcome D) (f' : A → Outcome D)
      → ((a : A) → f (g a) ≡ f' a)
      → ((m >>= λ a. ok (g a)) >>= f) ≡ (m >>= f')
  bind_dressed (ok a) g f f' h = h a
  bind_dressed (err e) g f f' h = refl
  bind_dressed (panic x) g f f' h = refl
  bind_dressed stuck g f f' h = refl

-- The same with two steps after it.
pub bind_dressed_then {ℓ κ μ ν} :
    {A : Type ℓ} {B : Type κ} {D : Type μ} {E : Type ν} (m : Outcome A) (g : A → B)
    (f : B → Outcome D) (f' : D → Outcome E) (out : A → Outcome E)
    → ((a : A) → (f (g a) >>= f') ≡ out a)
    → (((m >>= λ a. ok (g a)) >>= f) >>= f') ≡ (m >>= out)
bind_dressed_then (ok a) g f f' out h = h a
bind_dressed_then (err e) g f f' out h = refl
bind_dressed_then (panic x) g f f' out h = refl
bind_dressed_then stuck g f f' out h = refl

pub bind_same {ℓ κ} :
    {A : Type ℓ} {B : Type κ} (m : Outcome A) (f g : A → Outcome B)
    → ((a : A) → f a ≡ g a)
    → (m >>= f) ≡ (m >>= g)
bind_same (ok a) f g h = h a
bind_same (err e) f g h = refl
bind_same (panic p) f g h = refl
bind_same stuck f g h = refl

pub bind_ok {ℓ} : {A : Type ℓ} (m : Outcome A) → (m >>= λ a. ok a) ≡ m
bind_ok (ok a) = refl
bind_ok (err e) = refl
bind_ok (panic p) = refl
bind_ok stuck = refl
