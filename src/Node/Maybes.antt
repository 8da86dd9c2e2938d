-- ===== src/Node/Maybes.antt =====
-- ipldsch_satisfaction.go: the methods of the Maybe types and the field accessors. The four Maybe
-- types of the scalars are one text.
use go_codec_dagpb.Common.{◌≡◌, ◌⊎◌, refl, Bytes, ℤ, Bool, true, false, if◌then◌else◌, inl, inr}
use go_codec_dagpb.Outcome.{Outcome, ok, panic, unreachable, rejected_unbox, ◌>>=◌}
use go_codec_dagpb.Schema.{
  Maybe, Field, Link, PbLink, PbLinks, PbNode, name_key, tsize_key, data_key,
}
use go_codec_dagpb.Node.{Node, Typed}
use go_codec_dagpb.Node.LinkView
use go_codec_dagpb.Node.NodeView
use go_codec_dagpb.Node.Access.{as_string}

module _ {ℓ} {A : Type ℓ} where
  -- A field that is absent or has a value.
  abbrev pub IsSettled : Field A → Type 0
  IsSettled fd = (fd.m ≡ Maybe.absent) ⊎ (fd.m ≡ Maybe.value)

  -- Exists
  unfoldable pub exists : Field A → Bool
  exists fd = elim fd.m [ Maybe.value ↦ true | _ ↦ false ]

  -- Must
  unfoldable pub must : Field A → Outcome A
  unfolding exists
  must fd = if exists fd then ok fd.v else panic rejected_unbox

  -- AsNode, where `view` makes a node of the value.
  unfoldable pub as_node : {C : Type 0} → (A → Typed C) → Field A → Outcome (Node C)
  as_node view fd = elim fd.m [
    | Maybe.absent ↦ ok Node.absent
    | Maybe.null ↦ ok Node.null
    | Maybe.value ↦ ok (Node.typed (view fd.v))
    | _ ↦ panic unreachable
  ]

module _ {C : Type 0} where
  -- FieldHash, FieldName, FieldTsize
  unfoldable pub field_hash : PbLink C → Link C
  field_hash n = n.hash

  unfoldable pub field_name : PbLink C → Field Bytes
  field_name n = n.name

  unfoldable pub field_tsize : PbLink C → Field ℤ
  field_tsize n = n.tsize

  -- FieldLinks, FieldData
  unfoldable pub field_links : PbNode C → PbLinks C
  field_links n = n.links

  unfoldable pub field_data : PbNode C → Field Bytes
  field_data n = n.bytes

  -- (PBLink).LookupByNode and (PBNode).LookupByNode
  unfoldable pub link_lookup_by_node : PbLink C → Node C → Outcome (Node C)
  unfolding as_string LinkView.lookup
  link_lookup_by_node n key = do ks ← as_string key; LinkView.lookup n ks

  unfoldable pub node_lookup_by_node : PbNode C → Node C → Outcome (Node C)
  unfolding as_string NodeView.lookup
  node_lookup_by_node n key = do ks ← as_string key; NodeView.lookup n ks

  -- For optional fields that are absent or have a value, the lookup of the field by a key node with
  -- its name gives what the field's accessor gives as a node.
  pub field_lookups-as_node :
      (l : PbLink C) (n : PbNode C)
      → IsSettled l.name
      → IsSettled l.tsize
      → IsSettled n.bytes
      → (link_lookup_by_node l (Node.string name_key) ≡ as_node Typed.string (field_name l))
        × (link_lookup_by_node l (Node.string tsize_key) ≡ as_node Typed.int (field_tsize l))
        × (node_lookup_by_node n (Node.string data_key) ≡ as_node Typed.bytes (field_data n))
  unfolding link_lookup_by_node node_lookup_by_node as_node field_name field_tsize field_data
  field_lookups-as_node l n hn ht hb = (named l.name hn, sized l.tsize ht, held n.bytes hb)
    where
      named :
          (fd : Field Bytes)
          → IsSettled fd
          → link_lookup_by_node (record l { name = fd }) (Node.string name_key)
            ≡ as_node Typed.string fd
      named fd (inl e) = rw (e, link_lookup_by_node, LinkView.lookup) refl
      named fd (inr e) = rw (e, link_lookup_by_node, LinkView.lookup) refl

      sized :
          (fd : Field ℤ)
          → IsSettled fd
          → link_lookup_by_node (record l { tsize = fd }) (Node.string tsize_key)
            ≡ as_node Typed.int fd
      sized fd (inl e) = rw (e, link_lookup_by_node, LinkView.lookup) refl
      sized fd (inr e) = rw (e, link_lookup_by_node, LinkView.lookup) refl

      held :
          (fd : Field Bytes)
          → IsSettled fd
          → node_lookup_by_node (record n { bytes = fd }) (Node.string data_key)
            ≡ as_node Typed.bytes fd
      held fd (inl e) = rw (e, node_lookup_by_node, NodeView.lookup) refl
      held fd (inr e) = rw (e, node_lookup_by_node, NodeView.lookup) refl
