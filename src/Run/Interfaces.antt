-- ===== src/Run/Interfaces.antt =====
-- The methods of nodes and assemblers with mixins that refuse every call.
use go_codec_dagpb.Common.{◌≡◌, refl, [], ◌∷◌}
use go_codec_dagpb.Outcome.{ok, err, wrong_kind}
use go_codec_dagpb.Schema.{Maybe, name_key, PbLinks, PbNode}
use go_codec_dagpb.Message.{link_of}
use go_codec_dagpb.Node.{Node, Typed}
use go_codec_dagpb.Node.Interface.{Kind, Mixins}
use go_codec_dagpb.Node.Kinds.{Refuses, methods_of, profile, profile_at, profile-methods_of}
use go_codec_dagpb.Assembler.Calls.{Call, AssemblerMixins}
use go_codec_dagpb.Assembler.ScalarNodes.{Assembler}
use go_codec_dagpb.Prototype.{Prototype, prototype_of}
use go_codec_dagpb.Prototype.Builders.{builder}
use go_codec_dagpb.Prototype.Rebuild.{remake, remake-settled}
use go_codec_dagpb.Node.LinkView
use go_codec_dagpb.Node.NodeView
use go_codec_dagpb.Node.Access.{link_entries, node_entries}
use go_codec_dagpb.Assembler.Link as LinkAsm
use go_codec_dagpb.Assembler.Root
use go_codec_dagpb.Generator.Conformance.{
  Knows, keys, names, shown, declared, is_some, bare_link, bare_node, of_pb_link, of_pb_node,
  structs-conform,
}
use go_codec_dagpb.Run.Cid.{Cid}
use go_codec_dagpb.Run.Examples.{link_a}

abbrev refusing : Mixins Cid
refusing k = record {
  lookup_by_string = λ s. err wrong_kind;
  lookup_by_node = λ v. err wrong_kind;
  lookup_by_index = λ i. err wrong_kind;
  lookup_by_segment = λ s. err wrong_kind;
  as_bool = err wrong_kind;
  as_int = err wrong_kind;
  as_float = err wrong_kind;
  as_string = err wrong_kind;
  as_bytes = err wrong_kind;
  as_link = err wrong_kind;
}

refusing-Refuses : (k : Kind) → Refuses (refusing k)
refusing-Refuses k = record {
  string_lookup = λ s. refl;
  node_lookup = λ v. refl;
  index_lookup = λ i. refl;
  segment_lookup = λ s. refl;
  bool_refused = refl;
  int_refused = refl;
  float_refused = refl;
  string_refused = refl;
  bytes_refused = refl;
  link_refused = refl;
}

abbrev refusing_call : AssemblerMixins Cid
refusing_call k c = err wrong_kind

abbrev one_node : PbNode Cid
one_node = record { links = record { x = [] }; bytes = record { m = Maybe.value; v = 7 ∷ [] } }

abbrev one_link : PbLinks Cid
one_link = record { x = link_of link_a ∷ [] }

profile-methods_of_example :
    profile (methods_of refusing (Typed.pb_link_repr (link_of link_a))) ≡ profile_at Kind.map
unfolding methods_of
profile-methods_of_example =
    profile-methods_of refusing refusing-Refuses (Typed.pb_link_repr (link_of link_a))

-- A builder that was used before.
remake-settled_example :
    remake
      (builder refusing_call Prototype.bytes)
      (Call.assign_node (Node.typed (Typed.bytes [])))
      (record { m = Maybe.value; v = 1 ∷ [] })
    ≡ ok (Typed.bytes [])
unfolding prototype_of
remake-settled_example =
    remake-settled refusing_call (Typed.bytes []) (record { m = Maybe.value; v = 1 ∷ [] })

structs-conform_example :
    (keys (link_entries (link_of link_a)) ≡ ok (names of_pb_link))
    × Knows (LinkView.lookup (link_of link_a) name_key) name_key of_pb_link
    × (shown (LinkView.lookup (bare_link (link_of link_a)) name_key) ≡ declared name_key of_pb_link)
    × (is_some (LinkAsm.child_of name_key) ≡ is_some (declared name_key of_pb_link))
    × (keys (node_entries one_node) ≡ ok (names of_pb_node))
    × Knows (NodeView.lookup one_node name_key) name_key of_pb_node
    × (shown (NodeView.lookup (bare_node one_node) name_key) ≡ declared name_key of_pb_node)
    × (is_some (Root.child_of name_key) ≡ is_some (declared name_key of_pb_node))
structs-conform_example = structs-conform (link_of link_a) one_node name_key
