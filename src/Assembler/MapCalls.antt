-- ===== src/Assembler/MapCalls.antt =====
-- ipldsch_satisfaction.go: every method of the NodeAssemblers of PBLink, PBLinks and PBNode, typed and
-- representation, and of their key assemblers.
use go_codec_dagpb.Outcome.{Outcome}
use go_codec_dagpb.Node.Interface.{Kind}
use go_codec_dagpb.Assembler.Calls.{Call, AssemblerMixins, refused}
use go_codec_dagpb.Assembler.Link
use go_codec_dagpb.Assembler.Link.{LinkAssembler}
use go_codec_dagpb.Assembler.LinkRepr
use go_codec_dagpb.Assembler.List as LinkList
use go_codec_dagpb.Assembler.List.{ListAssembler}
use go_codec_dagpb.Assembler.ListRepr
use go_codec_dagpb.Assembler.Root
use go_codec_dagpb.Assembler.Root.{RootAssembler}
use go_codec_dagpb.Assembler.RootRepr

module _ {C : Type 0} (mixins : AssemblerMixins C) where
  unfoldable pub pb_link_call : Call C → LinkAssembler C → Outcome (LinkAssembler C)
  unfolding Link.begin_map Link.assign_null Link.assign_node
  pb_link_call (Call.begin_map hint) a = Link.begin_map a
  pb_link_call Call.assign_null a = Link.assign_null a
  pb_link_call (Call.assign_node v) a = Link.assign_node v a
  pb_link_call call a = refused (mixins Kind.map) call a

  unfoldable pub pb_link_key_call : Call C → LinkAssembler C → Outcome (LinkAssembler C)
  unfolding Link.assign_key Link.assign_key_node
  pb_link_key_call (Call.assign_string k) a = Link.assign_key k a
  pb_link_key_call (Call.assign_node v) a = Link.assign_key_node v a
  pb_link_key_call call a = refused (mixins Kind.string) call a

  unfoldable pub pb_link_repr_call : Call C → LinkAssembler C → Outcome (LinkAssembler C)
  unfolding LinkRepr.begin_map LinkRepr.assign_null LinkRepr.assign_node
  pb_link_repr_call (Call.begin_map hint) a = LinkRepr.begin_map a
  pb_link_repr_call Call.assign_null a = LinkRepr.assign_null a
  pb_link_repr_call (Call.assign_node v) a = LinkRepr.assign_node v a
  pb_link_repr_call call a = refused (mixins Kind.map) call a

  unfoldable pub pb_link_repr_key_call : Call C → LinkAssembler C → Outcome (LinkAssembler C)
  unfolding LinkRepr.assign_key LinkRepr.assign_key_node
  pb_link_repr_key_call (Call.assign_string k) a = LinkRepr.assign_key k a
  pb_link_repr_key_call (Call.assign_node v) a = LinkRepr.assign_key_node v a
  pb_link_repr_key_call call a = refused (mixins Kind.string) call a

  unfoldable pub pb_node_call : Call C → RootAssembler C → Outcome (RootAssembler C)
  unfolding Root.begin_map Root.assign_null Root.assign_node
  pb_node_call (Call.begin_map hint) a = Root.begin_map a
  pb_node_call Call.assign_null a = Root.assign_null a
  pb_node_call (Call.assign_node v) a = Root.assign_node v a
  pb_node_call call a = refused (mixins Kind.map) call a

  unfoldable pub pb_node_key_call : Call C → RootAssembler C → Outcome (RootAssembler C)
  unfolding Root.assign_key Root.assign_key_node
  pb_node_key_call (Call.assign_string k) a = Root.assign_key k a
  pb_node_key_call (Call.assign_node v) a = Root.assign_key_node v a
  pb_node_key_call call a = refused (mixins Kind.string) call a

  unfoldable pub pb_node_repr_call : Call C → RootAssembler C → Outcome (RootAssembler C)
  unfolding RootRepr.begin_map RootRepr.assign_null RootRepr.assign_node
  pb_node_repr_call (Call.begin_map hint) a = RootRepr.begin_map a
  pb_node_repr_call Call.assign_null a = RootRepr.assign_null a
  pb_node_repr_call (Call.assign_node v) a = RootRepr.assign_node v a
  pb_node_repr_call call a = refused (mixins Kind.map) call a

  unfoldable pub pb_node_repr_key_call : Call C → RootAssembler C → Outcome (RootAssembler C)
  unfolding RootRepr.assign_key RootRepr.assign_key_node
  pb_node_repr_key_call (Call.assign_string k) a = RootRepr.assign_key k a
  pb_node_repr_key_call (Call.assign_node v) a = RootRepr.assign_key_node v a
  pb_node_repr_key_call call a = refused (mixins Kind.string) call a

  unfoldable pub pb_links_call : Call C → ListAssembler C → Outcome (ListAssembler C)
  unfolding LinkList.begin_list LinkList.assign_null LinkList.assign_node
  pb_links_call (Call.begin_list hint) a = LinkList.begin_list hint a
  pb_links_call Call.assign_null a = LinkList.assign_null a
  pb_links_call (Call.assign_node v) a = LinkList.assign_node v a
  pb_links_call call a = refused (mixins Kind.list) call a

  unfoldable pub pb_links_repr_call : Call C → ListAssembler C → Outcome (ListAssembler C)
  unfolding ListRepr.begin_list ListRepr.assign_null ListRepr.assign_node
  pb_links_repr_call (Call.begin_list hint) a = ListRepr.begin_list hint a
  pb_links_repr_call Call.assign_null a = ListRepr.assign_null a
  pb_links_repr_call (Call.assign_node v) a = ListRepr.assign_node v a
  pb_links_repr_call call a = refused (mixins Kind.list) call a
