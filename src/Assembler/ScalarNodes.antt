-- ===== src/Assembler/ScalarNodes.antt =====
-- The assemblers of this package together: AssignNode of a scalar node against the Assign method of
-- that scalar.
use go_codec_dagpb.Common.{ℕ, ℤ, Bytes, Bool}
use go_codec_dagpb.Outcome.{Outcome}
use go_codec_dagpb.Schema.{Field, Link}
use go_codec_dagpb.Node.{Node}
use go_codec_dagpb.Assembler.Calls.{Call, AssemblerMixins}
use go_codec_dagpb.Assembler.Link
use go_codec_dagpb.Assembler.Link.{LinkAssembler}
use go_codec_dagpb.Assembler.LinkRepr
use go_codec_dagpb.Assembler.List as LinkList
use go_codec_dagpb.Assembler.List.{ListAssembler}
use go_codec_dagpb.Assembler.ListRepr
use go_codec_dagpb.Assembler.Root
use go_codec_dagpb.Assembler.Root.{RootAssembler}
use go_codec_dagpb.Assembler.RootRepr
use go_codec_dagpb.Assembler.ScalarCalls.{bytes_call, int_call, link_call, string_call}
use go_codec_dagpb.Assembler.MapCalls.{
  pb_link_call, pb_link_key_call, pb_link_repr_call, pb_link_repr_key_call, pb_links_call,
  pb_links_repr_call, pb_node_call, pb_node_key_call, pb_node_repr_call, pb_node_repr_key_call,
}

-- The types of this package that are an ipld.NodeAssembler, less `_ErrorThunkAssembler`.
pub data Assembler : Type 0 where
  bytes : Assembler
  int : Assembler
  link : Assembler
  string : Assembler
  pb_link : Assembler
  pb_link_key : Assembler
  pb_link_repr : Assembler
  pb_link_repr_key : Assembler
  pb_links : Assembler
  pb_links_repr : Assembler
  pb_node : Assembler
  pb_node_key : Assembler
  pb_node_repr : Assembler
  pb_node_repr_key : Assembler

-- A scalar of the data model, and the two ways to assign it.
pub data Scalar (C : Type 0) : Type 0 where
  null : Scalar C
  bool : Bool → Scalar C
  int : ℤ → Scalar C
  float : ℕ → Scalar C
  string : Bytes → Scalar C
  bytes : Bytes → Scalar C
  link : Link C → Scalar C

module _ {C : Type 0} where
  abbrev pub node_of : Scalar C → Node C
  node_of Scalar.null = Node.null
  node_of (Scalar.bool x) = Node.bool x
  node_of (Scalar.int x) = Node.int x
  node_of (Scalar.float x) = Node.float x
  node_of (Scalar.string x) = Node.string x
  node_of (Scalar.bytes x) = Node.bytes x
  node_of (Scalar.link x) = Node.link x

  abbrev pub call_of : Scalar C → Call C
  call_of Scalar.null = Call.assign_null
  call_of (Scalar.bool x) = Call.assign_bool x
  call_of (Scalar.int x) = Call.assign_int x
  call_of (Scalar.float x) = Call.assign_float x
  call_of (Scalar.string x) = Call.assign_string x
  call_of (Scalar.bytes x) = Call.assign_bytes x
  call_of (Scalar.link x) = Call.assign_link x

module _ (C : Type 0) where
  abbrev pub State : Assembler → Type 0
  State Assembler.bytes = Field Bytes
  State Assembler.int = Field ℤ
  State Assembler.link = Field (Link C)
  State Assembler.string = Field Bytes
  State Assembler.pb_link = LinkAssembler C
  State Assembler.pb_link_key = LinkAssembler C
  State Assembler.pb_link_repr = LinkAssembler C
  State Assembler.pb_link_repr_key = LinkAssembler C
  State Assembler.pb_links = ListAssembler C
  State Assembler.pb_links_repr = ListAssembler C
  State Assembler.pb_node = RootAssembler C
  State Assembler.pb_node_key = RootAssembler C
  State Assembler.pb_node_repr = RootAssembler C
  State Assembler.pb_node_repr_key = RootAssembler C

module _ {C : Type 0} (mixins : AssemblerMixins C) where
  -- A call of a method of an assembler.
  unfoldable pub call : (s : Assembler) → Call C → State C s → Outcome (State C s)
  unfolding bytes_call int_call link_call string_call pb_link_call pb_link_key_call
      pb_link_repr_call pb_link_repr_key_call pb_links_call pb_links_repr_call pb_node_call
      pb_node_key_call pb_node_repr_call pb_node_repr_key_call
  call Assembler.bytes = bytes_call mixins
  call Assembler.int = int_call mixins
  call Assembler.link = link_call mixins
  call Assembler.string = string_call mixins
  call Assembler.pb_link = pb_link_call mixins
  call Assembler.pb_link_key = pb_link_key_call mixins
  call Assembler.pb_link_repr = pb_link_repr_call mixins
  call Assembler.pb_link_repr_key = pb_link_repr_key_call mixins
  call Assembler.pb_links = pb_links_call mixins
  call Assembler.pb_links_repr = pb_links_repr_call mixins
  call Assembler.pb_node = pb_node_call mixins
  call Assembler.pb_node_key = pb_node_key_call mixins
  call Assembler.pb_node_repr = pb_node_repr_call mixins
  call Assembler.pb_node_repr_key = pb_node_repr_key_call mixins
