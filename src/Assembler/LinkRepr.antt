-- ===== src/Assembler/LinkRepr.antt =====
-- ipldsch_satisfaction.go: `_PBLink__ReprAssembler` and `_PBLink__ReprKeyAssembler`. The struct has the
-- fields of `_PBLink__Assembler`, and the same child assemblers: `_Link__ReprAssembler` is
-- `_Link__Assembler`. Its valueFinishTidy leaves `ca_Hash.w` as it is.
use Prim.Native.Nat.{bit_and}
use go_codec_dagpb.Common.{Bytes, Bool, true, false, Option, none, some, ◌==◌, if◌then◌else◌}
use go_codec_dagpb.Outcome.{
  Outcome, ok, err, panic, invalid_state, invalid_key, missing_field, wrong_kind, ◌>>=◌, ◌>>◌,
}
use go_codec_dagpb.Schema.{Maybe, MaState, PbLink, zero_link, hash_key}
use go_codec_dagpb.Node.{Node, Entries}
use go_codec_dagpb.Node.Access.{is_null, as_string, map_iterator}
use go_codec_dagpb.Assembler.Link
use go_codec_dagpb.Assembler.Link.{
  LinkAssembler, Child, bit, child_of, child_at, deref, is_value, begin_check, zero_assembler,
}

module _ {C : Type 0} where
  -- NewBuilder, Reset
  unfoldable pub new_builder : LinkAssembler C
  new_builder = record zero_assembler { w = some zero_link }

  -- Build
  unfoldable pub build : LinkAssembler C → Outcome (PbLink C)
  unfolding deref
  build a = elim a.m [ Maybe.value ↦ deref a.w | _ ↦ panic invalid_state ]

  unfoldable pub reset : LinkAssembler C → LinkAssembler C
  reset a = record a { state = MaState.initial; s = 0 }

  unfoldable pub begin_map : LinkAssembler C → Outcome (LinkAssembler C)
  unfolding begin_check
  begin_map a = do
    begin_check a.m
    let w : Option (PbLink C) = elim a.w [ none ↦ some zero_link | some l ↦ some l ]
    ok (record a { w = w; m = Maybe.mid_value })

  unfoldable pub null_at : Maybe → LinkAssembler C → Outcome (LinkAssembler C)
  null_at Maybe.allow_null a = ok (record a { m = Maybe.null })
  null_at Maybe.absent a = err wrong_kind
  null_at _ a = panic invalid_state

  unfoldable pub assign_null : LinkAssembler C → Outcome (LinkAssembler C)
  unfolding null_at
  assign_null a = null_at a.m a

  -- valueFinishTidy
  unfoldable pub tidy_child : Child → LinkAssembler C → Outcome (Bool × LinkAssembler C)
  unfolding deref is_value
  tidy_child Child.hash a =
      if is_value a.cm
      then ok (true, record a { cm = Maybe.absent; state = MaState.initial })
      else ok (false, a)
  tidy_child Child.name a = do
    w ← deref a.w
    if is_value w.name.m then ok (true, record a { state = MaState.initial }) else ok (false, a)
  tidy_child Child.tsize a = do
    w ← deref a.w
    if is_value w.tsize.m then ok (true, record a { state = MaState.initial }) else ok (false, a)

  unfoldable pub value_finish_tidy : LinkAssembler C → Outcome (Bool × LinkAssembler C)
  unfolding tidy_child child_at
  value_finish_tidy a = do c ← child_at a.f; tidy_child c a

  -- The `switch ma.state` that AssembleEntry, AssembleKey and Finish begin with.
  unfoldable pub carry_on : MaState → LinkAssembler C → Outcome (LinkAssembler C)
  unfolding value_finish_tidy
  carry_on MaState.initial a = ok a
  carry_on MaState.mid_value a = do
    (tidied, a') ← value_finish_tidy a
    if tidied then ok a' else panic invalid_state
  carry_on _ a = panic invalid_state

  -- AssembleEntry
  unfoldable pub assemble_entry : Bytes → LinkAssembler C → Outcome (Child × LinkAssembler C)
  unfolding carry_on child_of Link.claim Link.wire
  assemble_entry k a = do
    a' ← carry_on a.state a
    elim (child_of k) [
      | none ↦ err (invalid_key k)
      | some c ↦ do a₁ ← Link.claim MaState.mid_value c a'; a₂ ← Link.wire c a₁; ok (c, a₂)
    ]

  -- AssembleKey
  unfoldable pub assemble_key : LinkAssembler C → Outcome (LinkAssembler C)
  unfolding carry_on
  assemble_key a = do a' ← carry_on a.state a; ok (record a' { state = MaState.mid_key })

  -- AssembleValue
  unfoldable pub value_at : MaState → LinkAssembler C → Outcome (Child × LinkAssembler C)
  unfolding child_at Link.wire
  value_at MaState.expect_value a = do
    c ← child_at a.f
    a' ← Link.wire c (record a { state = MaState.mid_value })
    ok (c, a')
  value_at _ a = panic invalid_state

  unfoldable pub assemble_value : LinkAssembler C → Outcome (Child × LinkAssembler C)
  unfolding value_at
  assemble_value a = value_at a.state a

  -- Finish
  unfoldable pub finish : LinkAssembler C → Outcome (LinkAssembler C)
  unfolding carry_on
  finish a = do
    a' ← carry_on a.state a
    if bit_and a'.s (bit Child.hash) == 0
        then err (missing_field hash_key)
        else ok (record a' { state = MaState.finished; m = Maybe.value })

  -- (*_PBLink__ReprKeyAssembler).AssignString
  unfoldable pub key_at : MaState → Bytes → LinkAssembler C → Outcome (LinkAssembler C)
  unfolding child_of Link.claim
  key_at MaState.mid_key k a = elim (child_of k) [
    | none ↦ err (invalid_key k)
    | some c ↦ Link.claim MaState.expect_value c a
  ]
  key_at _ k a = panic invalid_state

  unfoldable pub assign_key : Bytes → LinkAssembler C → Outcome (LinkAssembler C)
  unfolding key_at
  assign_key k a = key_at a.state k a

  -- (*_PBLink__ReprKeyAssembler).AssignNode
  unfoldable pub assign_key_node : Node C → LinkAssembler C → Outcome (LinkAssembler C)
  unfolding assign_key as_string
  assign_key_node v a = do k ← as_string v; assign_key k a

  -- The loop over the iterator in AssignNode.
  unfoldable pub assign_entries : Entries C → LinkAssembler C → Outcome (LinkAssembler C)
  unfolding assemble_key assign_key_node assemble_value Link.assign_child_node
  assign_entries Entries.end a = ok a
  assign_entries (Entries.entry_fails e) a = err e
  assign_entries (Entries.entry k v es) a = do
    a₁ ← assemble_key a
    a₂ ← assign_key_node k a₁
    (c, a₃) ← assemble_value a₂
    a₄ ← Link.assign_child_node c v a₃
    assign_entries es a₄

  -- AssignNode: the type that it looks for is `*_PBLink`, as in the typed assembler.
  unfoldable pub assign_node : Node C → LinkAssembler C → Outcome (LinkAssembler C)
  unfolding is_null assign_null Link.link? begin_check map_iterator assign_entries finish
  assign_node v a = if is_null v then assign_null a else elim (Link.link? v) [
    | some v2 ↦ do begin_check a.m; ok (record a { w = some v2; m = Maybe.value })
    | none ↦ elim (map_iterator v) [
      | none ↦ err wrong_kind
      | some it ↦ do es ← it; a' ← assign_entries es a; finish a'
    ]
  ]
