-- ===== src/Assembler/ScalarCalls.antt =====
-- ipldsch_satisfaction.go: every method of `_Bytes__Assembler`, `_Int__Assembler`, `_Link__Assembler`
-- and `_String__Assembler`, as a NodeAssembler.
use go_codec_dagpb.Common.{ℤ, Bytes}
use go_codec_dagpb.Outcome.{Outcome}
use go_codec_dagpb.Schema.{Field, Link}
use go_codec_dagpb.Node.Interface.{Kind}
use go_codec_dagpb.Assembler.Calls.{Call, AssemblerMixins, refused}
use go_codec_dagpb.Assembler.Scalar.{
  assign_null, assign_bytes, assign_bytes_node, assign_int, assign_int_node, assign_link,
  assign_link_node, assign_string, assign_string_node,
}

module _ {C : Type 0} (mixins : AssemblerMixins C) where
  unfoldable pub bytes_call : Call C → Field Bytes → Outcome (Field Bytes)
  unfolding assign_null assign_bytes assign_bytes_node
  bytes_call Call.assign_null c = assign_null c
  bytes_call (Call.assign_bytes v) c = assign_bytes v c
  bytes_call (Call.assign_node v) c = assign_bytes_node v c
  bytes_call call c = refused (mixins Kind.bytes) call c

  unfoldable pub int_call : Call C → Field ℤ → Outcome (Field ℤ)
  unfolding assign_null assign_int assign_int_node
  int_call Call.assign_null c = assign_null c
  int_call (Call.assign_int v) c = assign_int v c
  int_call (Call.assign_node v) c = assign_int_node v c
  int_call call c = refused (mixins Kind.int) call c

  unfoldable pub link_call : Call C → Field (Link C) → Outcome (Field (Link C))
  unfolding assign_null assign_link assign_link_node
  link_call Call.assign_null c = assign_null c
  link_call (Call.assign_link v) c = assign_link v c
  link_call (Call.assign_node v) c = assign_link_node v c
  link_call call c = refused (mixins Kind.link) call c

  unfoldable pub string_call : Call C → Field Bytes → Outcome (Field Bytes)
  unfolding assign_null assign_string assign_string_node
  string_call Call.assign_null c = assign_null c
  string_call (Call.assign_string v) c = assign_string v c
  string_call (Call.assign_node v) c = assign_string_node v c
  string_call call c = refused (mixins Kind.string) call c
