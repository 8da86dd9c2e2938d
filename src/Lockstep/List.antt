-- ===== src/Lockstep/List.antt =====
-- `_PBLinks__ReprAssembler` in lockstep with `_PBLinks__Assembler`.
use go_codec_dagpb.Common.{false, none, some}
use go_codec_dagpb.Outcome.{Outcome, ok, ◌>>=◌, ◌>>◌}
use go_codec_dagpb.Outcome.Simulates.{
  Simulates-self, Simulates, both, same_error, panics, Simulates-bind,
}
use go_codec_dagpb.Schema.{Maybe, LaState, PbLinks, zero_link}
use go_codec_dagpb.Node.{Node, Typed, Items}
use go_codec_dagpb.Node.Access.{list_iterator, link_items_repr}
use go_codec_dagpb.Assembler.Link
use go_codec_dagpb.Assembler.Link.{begin_check}
use go_codec_dagpb.Assembler.LinkRepr
use go_codec_dagpb.Assembler.List as LinkList
use go_codec_dagpb.Assembler.List.{ListAssembler}
use go_codec_dagpb.Assembler.ListRepr
use go_codec_dagpb.Lockstep.Link as LinkStep

module _ {C : Type 0} where
  -- The second assembler is the first one, but for `ca_Hash.w` of its row.
  pub data Shows : ListAssembler C → ListAssembler C → Type 0 where
    shows : (a : ListAssembler C) (va : _) → LinkStep.Shows a.va va → Shows a (record a { va = va })

  abbrev pub Lockstep : Outcome (ListAssembler C) → Outcome (ListAssembler C) → Type 0
  Lockstep = Simulates Shows

  carry_on-Lockstep :
      (st : LaState) (a b : ListAssembler C)
      → Shows a b
      → Lockstep (LinkList.carry_on st a) (ListRepr.carry_on st b)
  unfolding LinkList.carry_on ListRepr.carry_on
  carry_on-Lockstep LaState.initial a b h = both h
  carry_on-Lockstep LaState.mid_value a _ (shows _ _ (LinkStep.shows _ w h)) = go a.va.m
    where
      go :
          (m : Maybe)
          → let va = record a.va { m = m } in
            Lockstep
              (LinkList.carry_on LaState.mid_value (record a { va = va }))
              (ListRepr.carry_on LaState.mid_value (record a { va = record va { hash_w = w } }))
      go Maybe.value = both (shows _ _ (LinkStep.shows _ false λ e. absurd (cc)))
      go _ = panics
  carry_on-Lockstep LaState.finished a b h = panics

  assemble_value-Lockstep :
      (a b : ListAssembler C)
      → Shows a b
      → Lockstep (LinkList.assemble_value a) (ListRepr.assemble_value b)
  unfolding LinkList.assemble_value ListRepr.assemble_value LinkList.target
  assemble_value-Lockstep a _ (shows _ va r) =
      Simulates-bind (carry_on-Lockstep a.state a _ (shows _ va r)) λ a' b' r'. begun a' b' r'
    where
      begun :
          (a b : ListAssembler C)
          → Shows a b
          → Lockstep
              (ok (record a {
                x = (LinkList.target a).x;
                state = LaState.mid_value;
                va = record a.va { w = some zero_link };
              }))
              (ok (record b {
                x = (LinkList.target b).x;
                state = LaState.mid_value;
                va = record b.va { w = some zero_link };
              }))
      begun a _ (shows _ _ (LinkStep.shows _ w h)) = both (shows _ _ (LinkStep.shows _ w h))

  finish-Lockstep :
      (a b : ListAssembler C) → Shows a b → Lockstep (LinkList.finish a) (ListRepr.finish b)
  unfolding LinkList.finish ListRepr.finish
  finish-Lockstep a _ (shows _ va r) =
      Simulates-bind (carry_on-Lockstep a.state a _ (shows _ va r)) λ a' b' r'. finished a' b' r'
    where
      finished :
          (a b : ListAssembler C)
          → Shows a b
          → Lockstep
              (ok (record a { state = LaState.finished; m = Maybe.value }))
              (ok (record b { state = LaState.finished; m = Maybe.value }))
      finished a _ (shows _ va r) = both (shows _ va r)

  on_row-Lockstep :
      (v : Node C) (a b : ListAssembler C)
      → Shows a b
      → Lockstep
          (LinkList.on_row (Link.assign_node v) a)
          (LinkList.on_row (LinkRepr.assign_node v) b)
  unfolding LinkList.on_row
  on_row-Lockstep v a _ (shows _ va r) =
      Simulates-bind (LinkStep.assign_node-Lockstep v a.va va r) λ x y r'. both (shows _ y r')

  assign_items-Lockstep :
      (xs : Items C) (a b : ListAssembler C)
      → Shows a b
      → Lockstep (LinkList.assign_items xs a) (ListRepr.assign_items xs b)
  unfolding LinkList.assign_items ListRepr.assign_items
  assign_items-Lockstep Items.last a b h = both h
  assign_items-Lockstep (Items.item_fails e) a b h = same_error
  assign_items-Lockstep (Items.item v xs) a b h =
      Simulates-bind (assemble_value-Lockstep a b h) λ a₁ b₁ h₁.
        Simulates-bind (on_row-Lockstep v a₁ b₁ h₁) λ a₂ b₂ h₂. assign_items-Lockstep xs a₂ b₂ h₂

  filled :
      (it : Outcome (Items C)) (a b : ListAssembler C)
      → Shows a b
      → Lockstep
          (do xs ← it; a' ← LinkList.assign_items xs a; LinkList.finish a')
          (do xs ← it; b' ← ListRepr.assign_items xs b; ListRepr.finish b')
  filled it a b h =
      Simulates-bind (Simulates-self it)
        λ xs xs' e. rw e (Simulates-bind (assign_items-Lockstep xs' a b h) finish-Lockstep)

  copied :
      (n : PbLinks C) (a b : ListAssembler C)
      → Shows a b
      → Lockstep
          (do
            begin_check a.m
            ok (record a { x = n.x; m = Maybe.value; va = record a.va { w = none } }))
          (do
            begin_check b.m
            ok (record b { x = n.x; m = Maybe.value; va = record b.va { w = none } }))
  copied n a _ (shows _ _ (LinkStep.shows _ w h)) =
      Simulates-bind (Simulates-self (begin_check a.m))
        λ x y e. both (shows _ _ (LinkStep.shows _ w h))

  null_at-Lockstep :
      (m : Maybe) (a b : ListAssembler C)
      → Shows a b
      → Lockstep (LinkList.null_at m a) (ListRepr.null_at m b)
  unfolding LinkList.null_at ListRepr.null_at
  null_at-Lockstep Maybe.allow_null a _ (shows _ va r) = both (shows _ va r)
  null_at-Lockstep Maybe.absent a b h = same_error
  null_at-Lockstep _ a b h = panics

  pub assign_node-Lockstep :
      (v : Node C) (a b : ListAssembler C)
      → Shows a b
      → Lockstep (LinkList.assign_node v a) (ListRepr.assign_node v b)
  unfolding LinkList.assign_node ListRepr.assign_node LinkList.assign_null ListRepr.assign_null
      list_iterator
  assign_node-Lockstep Node.null a _ (shows _ va r) = null_at-Lockstep a.m a _ (shows _ va r)
  assign_node-Lockstep (Node.typed (Typed.pb_links n)) a b h = copied n a b h
  assign_node-Lockstep (Node.list xs) a b h = filled (ok xs) a b h
  assign_node-Lockstep (Node.typed (Typed.pb_links_repr n)) a b h = filled (link_items_repr n) a b h
  assign_node-Lockstep _ a b h = same_error
