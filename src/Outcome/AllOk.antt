-- ===== src/Outcome/AllOk.antt =====
-- What a computation gives, if it gives a value, is in `P`.
use go_codec_dagpb.Common.{
  ◌≡◌, ℕ, ◌==◌, ==_iff, Bool-cases, inl, inr, not, Bool, true, false, if◌then◌else◌,
}
use go_codec_dagpb.Outcome.{Error, Panic, Outcome, ok, err, panic, stuck, ◌>>=◌, ◌>>◌, reject_if}
use mathlib.Core.Path.{subst}

pub data AllOk {ℓ κ} {A : Type ℓ} (P : A → Type κ) : Outcome A → Type (ℓ ⊔ κ) where
  gives : {a : A} → P a → AllOk P (ok a)
  fails : {e : Error} → AllOk P (err e)
  panics : {p : Panic} → AllOk P (panic p)
  runs_on : AllOk P stuck

pub AllOk-bind {ℓ κ ℓ' κ'} :
    {A : Type ℓ} {B : Type ℓ'} {P : A → Type κ} {Q : B → Type κ'} {m : Outcome A}
    {f : A → Outcome B}
    → AllOk P m
    → ((a : A) → P a → AllOk Q (f a))
    → AllOk Q (m >>= f)
AllOk-bind (gives {a} h) k = k a h
AllOk-bind fails k = fails
AllOk-bind panics k = panics
AllOk-bind runs_on k = runs_on

-- Nothing is asked of the first step's value.
pub AllOk-then {ℓ ℓ' κ'} :
    {A : Type ℓ} {B : Type ℓ'} {Q : B → Type κ'} (m : Outcome A) {f : A → Outcome B}
    → ((a : A) → AllOk Q (f a))
    → AllOk Q (m >>= f)
AllOk-then (ok a) k = k a
AllOk-then (err e) k = fails
AllOk-then (panic p) k = panics
AllOk-then stuck k = runs_on

pub AllOk-if {ℓ κ} :
    {A : Type ℓ} {P : A → Type κ} (b : Bool) {m n : Outcome A}
    → AllOk P m
    → AllOk P n
    → AllOk P (if b then m else n)
AllOk-if true h h' = h
AllOk-if false h h' = h'

pub AllOk-ok {ℓ κ} :
    {A : Type ℓ} {P : A → Type κ} {m : Outcome A} {a : A} → AllOk P m → m ≡ ok a → P a
AllOk-ok {P} (gives h) e = subst P (cc) h
AllOk-ok fails e = absurd (cc)
AllOk-ok panics e = absurd (cc)
AllOk-ok runs_on e = absurd (cc)

pub AllOk-map {ℓ κ μ} :
    {A : Type ℓ} {P : A → Type κ} {Q : A → Type μ} {m : Outcome A}
    → AllOk P m
    → ((a : A) → P a → Q a)
    → AllOk Q m
AllOk-map (gives {a} h) k = gives (k a h)
AllOk-map fails k = fails
AllOk-map panics k = panics
AllOk-map runs_on k = runs_on

-- Tests on numbers, with what they show.
pub AllOk-reject_unless {ℓ κ} :
    {A : Type ℓ} {P : A → Type κ} (a b : ℕ) (e : Error) {m : Outcome A}
    → (a ≡ b → AllOk P m)
    → AllOk P (reject_if (not (a == b)) e >> m)
AllOk-reject_unless a b e h = elim (Bool-cases (a == b)) [
  | inl t ↦ rw t (h ((==_iff a b).0 t))
  | inr t ↦ rw t fails
]

pub AllOk-if_eq {ℓ κ} :
    {A : Type ℓ} {P : A → Type κ} (a b : ℕ) {m n : Outcome A}
    → (a ≡ b → AllOk P m)
    → AllOk P n
    → AllOk P (if a == b then m else n)
AllOk-if_eq a b h h' = elim (Bool-cases (a == b)) [
  | inl t ↦ rw t (h ((==_iff a b).0 t))
  | inr t ↦ rw t h'
]
