-- ===== src/Node/MaybeMethods.antt =====
-- ipldsch_satisfaction.go: the methods of the seven Maybe types, which are one text. In the Maybes of
-- PBLink and PBNode the value is a pointer, here what it points to.
use go_codec_dagpb.Common.{◌≡◌, ◌⊎◌, refl, ℤ, Bytes, Bool, true, false, inl, inr}
use go_codec_dagpb.Outcome.{Outcome, ok, panic, rejected_unbox, unreachable}
use go_codec_dagpb.Schema.{Maybe, Field, Link, PbLink, PbLinks, PbNode}
use go_codec_dagpb.Node.{Node, Typed}
use go_codec_dagpb.Node.Maybes.{exists, must, as_node}

pub record MaybeMethods {ℓ} (A : Type ℓ) (C : Type 0) : Type ℓ where
  pub is_null : Bool
  pub is_absent : Bool
  pub exists : Bool
  pub as_node : Outcome (Node C)
  pub must : Outcome A

-- `m.m == schema.Maybe_Null`
is_null_maybe : Maybe → Bool
is_null_maybe Maybe.null = true
is_null_maybe _ = false

-- `m.m == schema.Maybe_Absent`
is_absent_maybe : Maybe → Bool
is_absent_maybe Maybe.absent = true
is_absent_maybe _ = false

unfoldable pub maybe_methods {ℓ} :
    {A : Type ℓ} {C : Type 0} → (A → Typed C) → Field A → MaybeMethods A C
unfolding is_null_maybe is_absent_maybe exists as_node must
maybe_methods view fd = record {
  is_null = is_null_maybe fd.m;
  is_absent = is_absent_maybe fd.m;
  exists = exists fd;
  as_node = as_node view fd;
  must = must fd;
}

module _ {C : Type 0} where
  unfoldable pub bytes_maybe : Field Bytes → MaybeMethods Bytes C
  unfolding maybe_methods
  bytes_maybe = maybe_methods Typed.bytes

  unfoldable pub int_maybe : Field ℤ → MaybeMethods ℤ C
  unfolding maybe_methods
  int_maybe = maybe_methods Typed.int

  unfoldable pub link_maybe : Field (Link C) → MaybeMethods (Link C) C
  unfolding maybe_methods
  link_maybe = maybe_methods Typed.link

  unfoldable pub string_maybe : Field Bytes → MaybeMethods Bytes C
  unfolding maybe_methods
  string_maybe = maybe_methods Typed.string

  unfoldable pub pb_link_maybe : Field (PbLink C) → MaybeMethods (PbLink C) C
  unfolding maybe_methods
  pb_link_maybe = maybe_methods Typed.pb_link

  unfoldable pub pb_links_maybe : Field (PbLinks C) → MaybeMethods (PbLinks C) C
  unfolding maybe_methods
  pb_links_maybe = maybe_methods Typed.pb_links

  unfoldable pub pb_node_maybe : Field (PbNode C) → MaybeMethods (PbNode C) C
  unfolding maybe_methods
  pb_node_maybe = maybe_methods Typed.pb_node

-- The methods of a Maybe agree with each other. It exists, Must gives the value and AsNode the value
-- as a node; or it is absent, Must panics and AsNode gives Absent; or it is null, Must panics and
-- AsNode gives Null; or it is none of these, as one under assembly is, and Must and AsNode panic.
pub maybe_methods-agree {ℓ} :
    {A : Type ℓ} {C : Type 0} (view : A → Typed C) (fd : Field A)
    → let m = maybe_methods view fd in
      ((m.exists ≡ true)
        × (m.is_absent ≡ false)
        × (m.is_null ≡ false)
        × (m.must ≡ ok fd.v)
        × (m.as_node ≡ ok (Node.typed (view fd.v))))
      ⊎ ((m.exists ≡ false)
          × (m.must ≡ panic rejected_unbox)
          × (((m.is_absent ≡ true) × (m.is_null ≡ false) × (m.as_node ≡ ok Node.absent))
              ⊎ ((m.is_absent ≡ false) × (m.is_null ≡ true) × (m.as_node ≡ ok Node.null))
              ⊎ ((m.is_absent ≡ false) × (m.is_null ≡ false) × (m.as_node ≡ panic unreachable))))
unfolding maybe_methods
maybe_methods-agree {A} view fd = go fd.m fd.v
  where
    go :
        (k : Maybe) (v : A)
        → let m = maybe_methods view (record { m = k; v = v }) in
          ((m.exists ≡ true)
            × (m.is_absent ≡ false)
            × (m.is_null ≡ false)
            × (m.must ≡ ok v)
            × (m.as_node ≡ ok (Node.typed (view v))))
          ⊎ ((m.exists ≡ false)
              × (m.must ≡ panic rejected_unbox)
              × (((m.is_absent ≡ true) × (m.is_null ≡ false) × (m.as_node ≡ ok Node.absent))
                  ⊎ ((m.is_absent ≡ false) × (m.is_null ≡ true) × (m.as_node ≡ ok Node.null))
                  ⊎ ((m.is_absent ≡ false)
                      × (m.is_null ≡ false)
                      × (m.as_node ≡ panic unreachable))))
    go Maybe.value v = inl (refl, refl, refl, refl, refl)
    go Maybe.absent v = inr (refl, refl, inl (refl, refl, refl))
    go Maybe.null v = inr (refl, refl, inr (inl (refl, refl, refl)))
    go _ v = inr (refl, refl, inr (inr (refl, refl, refl)))
