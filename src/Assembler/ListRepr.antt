-- ===== src/Assembler/ListRepr.antt =====
-- ipldsch_satisfaction.go: `_PBLinks__ReprAssembler`. The struct has the fields of
-- `_PBLinks__Assembler`; its rows are assembled by `_PBLink__ReprAssembler`.
use go_codec_dagpb.Common.{Bool, true, false, none, some, [], if◌then◌else◌, ℤ}
use go_codec_dagpb.Outcome.{Outcome, ok, err, panic, invalid_state, wrong_kind, ◌>>=◌, ◌>>◌}
use go_codec_dagpb.Schema.{Maybe, LaState, PbLinks, zero_link}
use go_codec_dagpb.Node.{Node, Items}
use go_codec_dagpb.Node.Access.{is_null, list_iterator}
use go_codec_dagpb.Assembler.Link.{begin_check, zero_assembler}
use go_codec_dagpb.Assembler.LinkRepr
use go_codec_dagpb.Assembler.List as LinkList
use go_codec_dagpb.Assembler.List.{ListAssembler, target, make_rows}

module _ {C : Type 0} where
  -- NewBuilder, Reset
  unfoldable pub new_builder : ListAssembler C
  new_builder = record { x = []; m = Maybe.absent; state = LaState.initial; va = zero_assembler }

  -- Build
  unfoldable pub build : ListAssembler C → Outcome (PbLinks C)
  unfolding target
  build a = elim a.m [ Maybe.value ↦ ok (target a) | _ ↦ panic invalid_state ]

  -- BeginList, with the size hint as in the typed assembler.
  unfoldable pub begin_list : ℤ → ListAssembler C → Outcome (ListAssembler C)
  unfolding begin_check make_rows
  begin_list hint a = do begin_check a.m; ok (make_rows hint (record a { m = Maybe.mid_value }))

  unfoldable pub null_at : Maybe → ListAssembler C → Outcome (ListAssembler C)
  null_at Maybe.allow_null a = ok (record a { m = Maybe.null })
  null_at Maybe.absent a = err wrong_kind
  null_at _ a = panic invalid_state

  unfoldable pub assign_null : ListAssembler C → Outcome (ListAssembler C)
  unfolding null_at
  assign_null a = null_at a.m a

  -- valueFinishTidy. `va.ca_Hash.w` may still point into the row that is let go of; it points to no
  -- row of `va.w` from here on. A caller that keeps `va.ca_Hash` to write there is not modelled.
  unfoldable pub value_finish_tidy : ListAssembler C → Bool × ListAssembler C
  unfolding target LinkRepr.reset
  value_finish_tidy a = elim a.va.m [
    | Maybe.value ↦ (
      true,
      record a {
        x = (target a).x;
        state = LaState.initial;
        va = record (LinkRepr.reset a.va) { w = none; m = Maybe.absent; hash_w = false };
      },
    )
    | _ ↦ (false, a)
  ]

  -- The `switch la.state` that AssembleValue and Finish begin with.
  unfoldable pub carry_on : LaState → ListAssembler C → Outcome (ListAssembler C)
  unfolding value_finish_tidy
  carry_on LaState.initial a = ok a
  carry_on LaState.mid_value a =
      let (tidied, a') = value_finish_tidy a in if tidied then ok a' else panic invalid_state
  carry_on LaState.finished a = panic invalid_state

  -- AssembleValue: a zero row is appended, and `va` points to it.
  unfoldable pub assemble_value : ListAssembler C → Outcome (ListAssembler C)
  unfolding carry_on target
  assemble_value a = do
    a' ← carry_on a.state a
    ok (record a' {
      x = (target a').x;
      state = LaState.mid_value;
      va = record a'.va { w = some zero_link };
    })

  -- Finish
  unfoldable pub finish : ListAssembler C → Outcome (ListAssembler C)
  unfolding carry_on
  finish a = do
    a' ← carry_on a.state a
    ok (record a' { state = LaState.finished; m = Maybe.value })

  -- The loop over the iterator in AssignNode.
  unfoldable pub assign_items : Items C → ListAssembler C → Outcome (ListAssembler C)
  unfolding assemble_value LinkList.on_row LinkRepr.assign_node
  assign_items Items.last a = ok a
  assign_items (Items.item_fails e) a = err e
  assign_items (Items.item v xs) a = do
    a₁ ← assemble_value a
    a₂ ← LinkList.on_row (LinkRepr.assign_node v) a₁
    assign_items xs a₂

  -- AssignNode: the type that it looks for is `*_PBLinks`, as in the typed assembler.
  unfoldable pub assign_node : Node C → ListAssembler C → Outcome (ListAssembler C)
  unfolding is_null assign_null LinkList.links? begin_check list_iterator assign_items finish
  assign_node v a = if is_null v then assign_null a else elim (LinkList.links? v) [
    | some v2 ↦ do
      begin_check a.m
      ok (record a { x = v2.x; m = Maybe.value; va = record a.va { w = none } })
    | none ↦ elim (list_iterator v) [
      | none ↦ err wrong_kind
      | some it ↦ do xs ← it; a' ← assign_items xs a; finish a'
    ]
  ]
