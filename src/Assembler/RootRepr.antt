-- ===== src/Assembler/RootRepr.antt =====
-- ipldsch_satisfaction.go: `_PBNode__ReprAssembler` and `_PBNode__ReprKeyAssembler`. The struct has the
-- fields of `_PBNode__Assembler`; its Links are assembled by `_PBLinks__ReprAssembler`. Its
-- valueFinishTidy leaves `ca_Links.w` as it is.
use Prim.Native.Nat.{bit_and}
use go_codec_dagpb.Common.{Bytes, Bool, true, false, none, some, [], ◌==◌, if◌then◌else◌}
use go_codec_dagpb.Outcome.{
  Outcome, ok, err, panic, invalid_state, invalid_key, missing_field, wrong_kind, ◌>>=◌, ◌>>◌,
}
use go_codec_dagpb.Schema.{Maybe, MaState, PbNode, links_key}
use go_codec_dagpb.Node.{Node, Entries}
use go_codec_dagpb.Node.Access.{is_null, as_string, map_iterator}
use go_codec_dagpb.Assembler.Scalar.{assign_bytes_node}
use go_codec_dagpb.Assembler.Link.{begin_check}
use go_codec_dagpb.Assembler.ListRepr
use go_codec_dagpb.Assembler.Root
use go_codec_dagpb.Assembler.Root.{
  RootAssembler, Child, bit, child_of, child_at, is_value, target, on_links, on_bytes,
}

module _ {C : Type 0} where
  -- NewBuilder, Reset
  unfoldable pub new_builder : RootAssembler C
  unfolding ListRepr.new_builder
  new_builder = record {
    bytes = record { m = Maybe.absent; v = [] };
    m = Maybe.absent;
    state = MaState.initial;
    s = 0;
    f = 0;
    links = ListRepr.new_builder;
    links_w = false;
  }

  -- Build
  unfoldable pub build : RootAssembler C → Outcome (PbNode C)
  unfolding target
  build a = elim a.m [ Maybe.value ↦ ok (target a) | _ ↦ panic invalid_state ]

  unfoldable pub begin_map : RootAssembler C → Outcome (RootAssembler C)
  unfolding begin_check
  begin_map a = do begin_check a.m; ok (record a { m = Maybe.mid_value })

  unfoldable pub null_at : Maybe → RootAssembler C → Outcome (RootAssembler C)
  null_at Maybe.allow_null a = ok (record a { m = Maybe.null })
  null_at Maybe.absent a = err wrong_kind
  null_at _ a = panic invalid_state

  unfoldable pub assign_null : RootAssembler C → Outcome (RootAssembler C)
  unfolding null_at
  assign_null a = null_at a.m a

  -- valueFinishTidy
  unfoldable pub tidy_child : Child → RootAssembler C → Bool × RootAssembler C
  unfolding is_value
  tidy_child Child.links a =
      if is_value a.links.m
      then (true, record a { links = record a.links { m = Maybe.absent }; state = MaState.initial })
      else (false, a)
  tidy_child Child.bytes a =
      if is_value a.bytes.m then (true, record a { state = MaState.initial }) else (false, a)

  unfoldable pub value_finish_tidy : RootAssembler C → Outcome (Bool × RootAssembler C)
  unfolding tidy_child child_at
  value_finish_tidy a = do c ← child_at a.f; ok (tidy_child c a)

  -- The `switch ma.state` that AssembleEntry, AssembleKey and Finish begin with.
  unfoldable pub carry_on : MaState → RootAssembler C → Outcome (RootAssembler C)
  unfolding value_finish_tidy
  carry_on MaState.initial a = ok a
  carry_on MaState.mid_value a = do
    (tidied, a') ← value_finish_tidy a
    if tidied then ok a' else panic invalid_state
  carry_on _ a = panic invalid_state

  -- AssembleEntry
  unfoldable pub assemble_entry : Bytes → RootAssembler C → Outcome (Child × RootAssembler C)
  unfolding carry_on child_of Root.claim Root.wire
  assemble_entry k a = do
    a' ← carry_on a.state a
    elim (child_of k) [
      | none ↦ err (invalid_key k)
      | some c ↦ do a'' ← Root.claim MaState.mid_value c a'; ok (c, Root.wire c a'')
    ]

  -- AssembleKey
  unfoldable pub assemble_key : RootAssembler C → Outcome (RootAssembler C)
  unfolding carry_on
  assemble_key a = do a' ← carry_on a.state a; ok (record a' { state = MaState.mid_key })

  -- AssembleValue
  unfoldable pub value_at : MaState → RootAssembler C → Outcome (Child × RootAssembler C)
  unfolding child_at Root.wire
  value_at MaState.expect_value a = do
    c ← child_at a.f
    ok (c, Root.wire c (record a { state = MaState.mid_value }))
  value_at _ a = panic invalid_state

  unfoldable pub assemble_value : RootAssembler C → Outcome (Child × RootAssembler C)
  unfolding value_at
  assemble_value a = value_at a.state a

  -- Finish
  unfoldable pub finish : RootAssembler C → Outcome (RootAssembler C)
  unfolding carry_on
  finish a = do
    a' ← carry_on a.state a
    if bit_and a'.s (bit Child.links) == 0
        then err (missing_field links_key)
        else ok (record a' { state = MaState.finished; m = Maybe.value })

  -- (*_PBNode__ReprKeyAssembler).AssignString
  unfoldable pub key_at : MaState → Bytes → RootAssembler C → Outcome (RootAssembler C)
  unfolding child_of Root.claim
  key_at MaState.mid_key k a = elim (child_of k) [
    | none ↦ err (invalid_key k)
    | some c ↦ Root.claim MaState.expect_value c a
  ]
  key_at _ k a = panic invalid_state

  unfoldable pub assign_key : Bytes → RootAssembler C → Outcome (RootAssembler C)
  unfolding key_at
  assign_key k a = key_at a.state k a

  -- (*_PBNode__ReprKeyAssembler).AssignNode
  unfoldable pub assign_key_node : Node C → RootAssembler C → Outcome (RootAssembler C)
  unfolding assign_key as_string
  assign_key_node v a = do k ← as_string v; assign_key k a

  -- `na.AssembleValue().AssignNode(v)`
  unfoldable pub assign_child_node : Child → Node C → RootAssembler C → Outcome (RootAssembler C)
  unfolding on_links on_bytes ListRepr.assign_node assign_bytes_node
  assign_child_node Child.links v = on_links (ListRepr.assign_node v)
  assign_child_node Child.bytes v = on_bytes (assign_bytes_node v)

  -- The loop over the iterator in AssignNode.
  unfoldable pub assign_entries : Entries C → RootAssembler C → Outcome (RootAssembler C)
  unfolding assemble_key assign_key_node assemble_value assign_child_node
  assign_entries Entries.end a = ok a
  assign_entries (Entries.entry_fails e) a = err e
  assign_entries (Entries.entry k v es) a = do
    a₁ ← assemble_key a
    a₂ ← assign_key_node k a₁
    (c, a₃) ← assemble_value a₂
    a₄ ← assign_child_node c v a₃
    assign_entries es a₄

  -- AssignNode: the type that it looks for is `*_PBNode`, as in the typed assembler.
  unfoldable pub assign_node : Node C → RootAssembler C → Outcome (RootAssembler C)
  unfolding is_null assign_null Root.node? Root.overwrite begin_check map_iterator assign_entries
      finish
  assign_node v a = if is_null v then assign_null a else elim (Root.node? v) [
    | some v2 ↦ do begin_check a.m; ok (Root.overwrite v2 a)
    | none ↦ elim (map_iterator v) [
      | none ↦ err wrong_kind
      | some it ↦ do es ← it; a' ← assign_entries es a; finish a'
    ]
  ]
