-- ===== src/Assembler/List.antt =====
-- ipldsch_satisfaction.go: `_PBLinks__Assembler`.
use go_codec_dagpb.Common.{
  Bool, true, false, Option, none, some, List, [], ◌∷◌, ◌++◌, if◌then◌else◌, ℤ, pos, suc,
}
use go_codec_dagpb.Outcome.{Outcome, ok, err, panic, invalid_state, wrong_kind, ◌>>=◌, ◌>>◌}
use go_codec_dagpb.Schema.{Maybe, LaState, PbLink, PbLinks, zero_link}
use go_codec_dagpb.Node.{Node, Typed, Items}
use go_codec_dagpb.Node.Access.{is_null, list_iterator}
use go_codec_dagpb.Assembler.Link
use go_codec_dagpb.Assembler.Link.{LinkAssembler, begin_check}

-- `x` holds the rows of `w.x` before the one that `va.w` points to. That row is the last of `w.x`,
-- and is kept in `va` until valueFinishTidy lets go of it. `va.m` is the assembler's `cm`.
pub record ListAssembler (C : Type 0) : Type 0 where
  pub x : List (PbLink C)
  pub m : Maybe
  pub state : LaState
  pub va : LinkAssembler C

module _ {C : Type 0} where
  -- `*na.w`
  unfoldable pub target : ListAssembler C → PbLinks C
  target a = record { x = elim a.va.w [ none ↦ a.x | some l ↦ a.x ++ l ∷ [] ] }

  unfoldable pub new_builder : ListAssembler C
  new_builder = record {
    x = [];
    m = Maybe.absent;
    state = LaState.initial;
    va = Link.zero_assembler;
  }

  -- Build
  unfoldable pub build : ListAssembler C → Outcome (PbLinks C)
  unfolding target
  build a = elim a.m [ Maybe.value ↦ ok (target a) | _ ↦ panic invalid_state ]

  -- `if sizeHint < 0 { sizeHint = 0 }; if sizeHint > 0 { na.w.x = make([]_PBLink, 0, sizeHint) }`: a
  -- positive hint lets go of the rows, that under assembly included. The panic of `make` for a capacity
  -- that is too large is left out.
  unfoldable pub make_rows : ℤ → ListAssembler C → ListAssembler C
  make_rows (pos (suc n)) a = record a { x = []; va = record a.va { w = none } }
  make_rows _ a = a

  -- BeginList
  unfoldable pub begin_list : ℤ → ListAssembler C → Outcome (ListAssembler C)
  unfolding begin_check make_rows
  begin_list hint a = do begin_check a.m; ok (make_rows hint (record a { m = Maybe.mid_value }))

  unfoldable pub null_at : Maybe → ListAssembler C → Outcome (ListAssembler C)
  null_at Maybe.allow_null a = ok (record a { m = Maybe.null })
  null_at Maybe.absent a = err wrong_kind
  null_at _ a = panic invalid_state

  unfoldable pub assign_null : ListAssembler C → Outcome (ListAssembler C)
  unfolding null_at
  assign_null a = null_at a.m a

  -- valueFinishTidy: `va.ca_Hash.w` points to no row that is still to be assembled.
  unfoldable pub value_finish_tidy : ListAssembler C → Bool × ListAssembler C
  unfolding target Link.reset
  value_finish_tidy a = elim a.va.m [
    | Maybe.value ↦ (
      true,
      record a {
        x = (target a).x;
        state = LaState.initial;
        va = record (Link.reset a.va) { w = none; m = Maybe.absent; hash_w = false };
      },
    )
    | _ ↦ (false, a)
  ]

  -- The `switch la.state` that AssembleValue and Finish begin with.
  unfoldable pub carry_on : LaState → ListAssembler C → Outcome (ListAssembler C)
  unfolding value_finish_tidy
  carry_on LaState.initial a = ok a
  carry_on LaState.mid_value a =
      let (tidied, a') = value_finish_tidy a in if tidied then ok a' else panic invalid_state
  carry_on LaState.finished a = panic invalid_state

  -- AssembleValue: a zero row is appended, and `va` points to it.
  unfoldable pub assemble_value : ListAssembler C → Outcome (ListAssembler C)
  unfolding carry_on target
  assemble_value a = do
    a' ← carry_on a.state a
    ok (record a' {
      x = (target a').x;
      state = LaState.mid_value;
      va = record a'.va { w = some zero_link };
    })

  -- Finish
  unfoldable pub finish : ListAssembler C → Outcome (ListAssembler C)
  unfolding carry_on
  finish a = do
    a' ← carry_on a.state a
    ok (record a' { state = LaState.finished; m = Maybe.value })

  -- An operation of `va`.
  unfoldable pub on_row :
      (LinkAssembler C → Outcome (LinkAssembler C)) → ListAssembler C → Outcome (ListAssembler C)
  on_row op a = do va ← op a.va; ok (record a { va = va })

  -- The loop over the iterator in AssignNode.
  unfoldable pub assign_items : Items C → ListAssembler C → Outcome (ListAssembler C)
  unfolding assemble_value on_row Link.assign_node
  assign_items Items.last a = ok a
  assign_items (Items.item_fails e) a = err e
  assign_items (Items.item v xs) a = do
    a₁ ← assemble_value a
    a₂ ← on_row (Link.assign_node v) a₁
    assign_items xs a₂

  -- `v.(*_PBLinks)`
  unfoldable pub links? : Node C → Option (PbLinks C)
  links? (Node.typed (Typed.pb_links l)) = some l
  links? _ = none

  -- AssignNode
  unfoldable pub assign_node : Node C → ListAssembler C → Outcome (ListAssembler C)
  unfolding is_null assign_null links? begin_check list_iterator assign_items finish
  assign_node v a = if is_null v then assign_null a else elim (links? v) [
    | some v2 ↦ do
      begin_check a.m
      ok (record a { x = v2.x; m = Maybe.value; va = record a.va { w = none } })
    | none ↦ elim (list_iterator v) [
      | none ↦ err wrong_kind
      | some it ↦ do xs ← it; a' ← assign_items xs a; finish a'
    ]
  ]
