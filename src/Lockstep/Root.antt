-- ===== src/Lockstep/Root.antt =====
-- AssignNode of `_PBNode__ReprAssembler` in lockstep with that of `_PBNode__Assembler`.
use Prim.Native.Nat.{bit_and}
use go_codec_dagpb.Common.{◌≡◌, refl, Bytes, Bool, true, false, ◌==◌, if◌then◌else◌}
use go_codec_dagpb.Outcome.{Outcome, ok, err, panic, nil_pointer, missing_field, ◌>>=◌, ◌>>◌}
use go_codec_dagpb.Outcome.Simulates.{
  Simulates-self, both, same_error, panics, Simulates-bind, Simulates-if,
}
use go_codec_dagpb.Schema.{Maybe, PbNode, Field, links_key}
use go_codec_dagpb.Node.{Node, Typed, Entries}
use go_codec_dagpb.Node.Access.{map_iterator, link_entries_repr, link_entries, node_entries_repr}
use go_codec_dagpb.Assembler.Scalar.{assign_bytes_node}
use go_codec_dagpb.Assembler.Root
use go_codec_dagpb.Assembler.Root.{RootAssembler, Child, child_of, child_at}
use go_codec_dagpb.Assembler.Link.{begin_check}
use go_codec_dagpb.Assembler.List as LinkList
use go_codec_dagpb.Assembler.List.{ListAssembler}
use go_codec_dagpb.Assembler.ListRepr
use go_codec_dagpb.Lockstep.Link as LinkStep
use go_codec_dagpb.Lockstep.List as ListStep
use go_codec_dagpb.Assembler.RootRepr
use go_codec_dagpb.Lockstep.RootSteps.{
  carry_on-Lockstep, assemble_key-Lockstep, assign_key_node-Lockstep, assemble_value-Simulates,
}
pub use go_codec_dagpb.Lockstep.RootSteps.{Shows, shows, Lockstep}

module _ {C : Type 0} where
  on_links-Lockstep :
      (v : Node C) (a b : RootAssembler C)
      → Shows a b
      → Lockstep
          (Root.on_links (LinkList.assign_node v) a)
          (Root.on_links (ListRepr.assign_node v) b)
  unfolding Root.on_links
  on_links-Lockstep v a _ (shows _ l w r h) =
      Simulates-bind (list_out a.links_w w h) λ x y r'. both (shows _ y w r' h)
    where
      list_out :
          (b w : Bool)
          → (b ≡ true → w ≡ true)
          → ListStep.Lockstep
              (if b then LinkList.assign_node v a.links else panic nil_pointer)
              (if w then ListRepr.assign_node v l else panic nil_pointer)
      list_out false w h = panics
      list_out true true h = ListStep.assign_node-Lockstep v a.links l r
      list_out true false h = let e = h refl in absurd (cc)

  on_bytes-Lockstep :
      (op : Field Bytes → Outcome (Field Bytes)) (a b : RootAssembler C)
      → Shows a b
      → Lockstep (Root.on_bytes op a) (Root.on_bytes op b)
  unfolding Root.on_bytes
  on_bytes-Lockstep op a _ (shows _ l w r h) =
      Simulates-bind (Simulates-self (op a.bytes)) λ c c' e. rw e (both (shows _ l w r h))

  -- AssignNode of the child assembler of `c`, under the two assemblers.
  assign_child-Lockstep :
      (c : Child) (v : Node C) (a b : RootAssembler C)
      → Shows a b
      → Lockstep (Root.assign_child_node c v a) (RootRepr.assign_child_node c v b)
  unfolding Root.assign_child_node RootRepr.assign_child_node
  assign_child-Lockstep Child.links v a b h = on_links-Lockstep v a b h
  assign_child-Lockstep Child.bytes v a b h = on_bytes-Lockstep (assign_bytes_node v) a b h

  pub finish-Lockstep :
      (a b : RootAssembler C) → Shows a b → Lockstep (Root.finish a) (RootRepr.finish b)
  unfolding Root.finish RootRepr.finish
  finish-Lockstep a _ (shows _ l w r h) =
      Simulates-bind (carry_on-Lockstep a.state a _ (shows _ l w r h)) λ a' b' r. finished a' b' r
    where
      finished :
          (a b : RootAssembler C)
          → Shows a b
          → Lockstep
              (if bit_and a.s 1 == 0 then err (missing_field links_key) else Root.finished a)
              (if bit_and b.s 1 == 0 then err (missing_field links_key) else Root.finished b)
      finished a _ (shows _ l w r h) = Simulates-if _ same_error (both (shows _ l w r h))

  pub assign_entries-Lockstep :
      (es : Entries C) (a b : RootAssembler C)
      → Shows a b
      → Lockstep (Root.assign_entries es a) (RootRepr.assign_entries es b)
  unfolding Root.assign_entries RootRepr.assign_entries
  assign_entries-Lockstep Entries.end a b h = both h
  assign_entries-Lockstep (Entries.entry_fails e) a b h = same_error
  assign_entries-Lockstep (Entries.entry k v es) a b h =
      Simulates-bind (assemble_key-Lockstep a b h) λ a₁ b₁ h₁.
        Simulates-bind (assign_key_node-Lockstep k a₁ b₁ h₁) λ a₂ b₂ h₂.
          Simulates-bind (assemble_value-Simulates a₂ b₂ h₂) λ p q (e, h₃). rw e (
            Simulates-bind (assign_child-Lockstep q.0 v p.1 q.1 h₃)
              λ a₄ b₄ h₄. assign_entries-Lockstep es a₄ b₄ h₄)

  filled :
      (it : Outcome (Entries C)) (a b : RootAssembler C)
      → Shows a b
      → Lockstep
          (do es ← it; a' ← Root.assign_entries es a; Root.finish a')
          (do es ← it; b' ← RootRepr.assign_entries es b; RootRepr.finish b')
  filled it a b h =
      Simulates-bind (Simulates-self it)
        λ es es' e. rw e (Simulates-bind (assign_entries-Lockstep es' a b h) finish-Lockstep)

  copied :
      (n : PbNode C) (a b : RootAssembler C)
      → Shows a b
      → Lockstep
          (do begin_check a.m; ok (Root.overwrite n a))
          (do begin_check b.m; ok (Root.overwrite n b))
  unfolding Root.overwrite
  copied n a _ (shows _ _ w (ListStep.shows _ _ (LinkStep.shows _ w' h')) h) =
      Simulates-bind (Simulates-self (begin_check a.m))
        λ x y e. both (shows _ _ w (ListStep.shows _ _ (LinkStep.shows _ w' h')) h)

  null_at-Lockstep :
      (m : Maybe) (a b : RootAssembler C)
      → Shows a b
      → Lockstep (Root.null_at m a) (RootRepr.null_at m b)
  unfolding Root.null_at RootRepr.null_at
  null_at-Lockstep Maybe.allow_null a _ (shows _ l w r h) = both (shows _ l w r h)
  null_at-Lockstep Maybe.absent a b h = same_error
  null_at-Lockstep _ a b h = panics

  pub assign_node-Lockstep :
      (v : Node C) (a b : RootAssembler C)
      → Shows a b
      → Lockstep (Root.assign_node v a) (RootRepr.assign_node v b)
  unfolding Root.assign_node RootRepr.assign_node Root.assign_null RootRepr.assign_null map_iterator
  assign_node-Lockstep Node.null a _ (shows _ l w r h) = null_at-Lockstep a.m a _ (shows _ l w r h)
  assign_node-Lockstep (Node.typed (Typed.pb_node n)) a b h = copied n a b h
  assign_node-Lockstep (Node.map es) a b h = filled (ok es) a b h
  assign_node-Lockstep (Node.typed (Typed.pb_link_repr n)) a b h =
      filled (link_entries_repr n) a b h
  assign_node-Lockstep (Node.typed (Typed.pb_link n)) a b h = filled (link_entries n) a b h
  assign_node-Lockstep (Node.typed (Typed.pb_node_repr n)) a b h =
      filled (node_entries_repr n) a b h
  assign_node-Lockstep _ a b h = same_error
