-- ===== src/Refines/Access.antt =====
-- The accessors and iterators of a node give a value or an error.
use go_codec_dagpb.Common.{◌≡◌, refl}
use go_codec_dagpb.Outcome.{Outcome}
use go_codec_dagpb.Outcome.Follows.{Follows, values, errors}
use go_codec_dagpb.Node.{Node, Typed}
use go_codec_dagpb.Node.Access.{as_link, as_string, as_int, as_bytes}

abbrev pub Same {ℓ} : {A : Type ℓ} → Outcome A → Outcome A → Type ℓ
Same = Follows (λ a b. a ≡ b)

module _ {C : Type 0} where
  pub as_string-Same : (v : Node C) → Same (as_string v) (as_string v)
  unfolding as_string
  as_string-Same (Node.string s) = values refl
  as_string-Same (Node.typed (Typed.string s)) = values refl
  as_string-Same _ = errors

  pub as_link-Same : (v : Node C) → Same (as_link v) (as_link v)
  unfolding as_link
  as_link-Same (Node.link s) = values refl
  as_link-Same (Node.typed (Typed.link s)) = values refl
  as_link-Same _ = errors

  pub as_int-Same : (v : Node C) → Same (as_int v) (as_int v)
  unfolding as_int
  as_int-Same (Node.int s) = values refl
  as_int-Same (Node.typed (Typed.int s)) = values refl
  as_int-Same _ = errors

  pub as_bytes-Same : (v : Node C) → Same (as_bytes v) (as_bytes v)
  unfolding as_bytes
  as_bytes-Same (Node.bytes s) = values refl
  as_bytes-Same (Node.typed (Typed.bytes s)) = values refl
  as_bytes-Same _ = errors
