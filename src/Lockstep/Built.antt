-- ===== src/Lockstep/Built.antt =====
-- What the representation builders build from any node.
use go_codec_dagpb.Common.{◌≡◌, refl, ◌∙◌, false, List}
use go_codec_dagpb.Outcome.{ok, ◌>>=◌}
use go_codec_dagpb.Outcome.Follows.{Follows, Follows-build, Follows-build_as}
use go_codec_dagpb.Outcome.Simulates.{Simulates-Follows}
use go_codec_dagpb.Schema.{PbLink, PbNode}
use go_codec_dagpb.Node.{Node}
use go_codec_dagpb.Assembler.Link
use go_codec_dagpb.Assembler.Link.{LinkAssembler}
use go_codec_dagpb.Assembler.LinkRepr
use go_codec_dagpb.Assembler.List as LinkList
use go_codec_dagpb.Assembler.List.{ListAssembler}
use go_codec_dagpb.Assembler.ListRepr
use go_codec_dagpb.Assembler.Root
use go_codec_dagpb.Assembler.Root.{RootAssembler}
use go_codec_dagpb.Assembler.RootRepr
use go_codec_dagpb.Reference.LinkFields.{link_from}
use go_codec_dagpb.Reference.NodeFields.{links_from, node_from}
use go_codec_dagpb.Refines.LinkValues.{IsRow, row_of}
use go_codec_dagpb.Refines.LinkValues
use go_codec_dagpb.Refines.ListValues.{IsList, list_of}
use go_codec_dagpb.Refines.ListValues
use go_codec_dagpb.Refines.RootValues.{IsBuilt, built_of}
use go_codec_dagpb.Refines.RootValues
use go_codec_dagpb.Lockstep.Link as LinkStep
use go_codec_dagpb.Lockstep.List as ListStep
use go_codec_dagpb.Lockstep.Root as RootStep

module _ {C : Type 0} where
  build-IsRow : (a : LinkAssembler C) (l : PbLink C) → IsRow l a → Link.build a ≡ ok l
  unfolding Link.build
  build-IsRow _ l (row_of st s f) = refl

  repr_link_follows :
      (v : Node C)
      → Follows
          (λ b l. LinkRepr.build b ≡ ok l)
          (LinkRepr.assign_node v LinkRepr.new_builder)
          (link_from v)
  unfolding LinkRepr.new_builder LinkRepr.build
  repr_link_follows v =
      Simulates-Follows
        (LinkStep.assign_node-Lockstep v _ _ (LinkStep.shows (LinkValues.begun 0) false λ e. e))
        (LinkValues.assign_node-follows 0 v) shown
    where
      shown :
          (a b : LinkAssembler C) (l : PbLink C)
          → LinkStep.Shows a b
          → IsRow l a
          → LinkRepr.build b ≡ ok l
      shown _ _ l (LinkStep.shows _ w h) (row_of st s f) = refl

  -- From any node, the typed builder and the representation builder of a PBLink build by AssignNode
  -- the link that the description link_from names, or give the error that it names.
  pub assign_node-link_from :
      (v : Node C)
      → ((do a ← Link.assign_node v Link.new_builder; Link.build a) ≡ link_from v)
        × ((do a ← LinkRepr.assign_node v LinkRepr.new_builder; LinkRepr.build a) ≡ link_from v)
  unfolding Link.new_builder
  assign_node-link_from v = (
    Follows-build (LinkValues.assign_node-follows 0 v) build-IsRow,
    Follows-build (repr_link_follows v) λ a l e. e,
  )

  build-IsList :
      (a : ListAssembler C) (ls : List (PbLink C))
      → IsList ls a
      → LinkList.build a ≡ ok (record { x = ls })
  unfolding LinkList.build LinkList.target
  build-IsList _ ls (list_of st f) = refl

  repr_links_follow :
      (v : Node C)
      → Follows
          (λ b ls. ListRepr.build b ≡ ok (record { x = ls }))
          (ListRepr.assign_node v ListRepr.new_builder)
          (links_from v)
  unfolding ListRepr.new_builder LinkList.new_builder ListRepr.build LinkList.target
  repr_links_follow v =
      Simulates-Follows
        (ListStep.assign_node-Lockstep v LinkList.new_builder _
          (ListStep.shows LinkList.new_builder _ (LinkStep.shows _ false λ e. e)))
        (ListValues.assign_node-follows v) shown
    where
      shown :
          (a b : ListAssembler C) (ls : List (PbLink C))
          → ListStep.Shows a b
          → IsList ls a
          → ListRepr.build b ≡ ok (record { x = ls })
      shown _ _ ls (ListStep.shows _ _ (LinkStep.shows _ w h)) (list_of st f) = refl

  -- From any node, the typed builder and the representation builder of a PBLinks build by AssignNode
  -- the list that the description links_from names, or give the error that it names.
  pub assign_node-links_from :
      (v : Node C)
      → ((do a ← LinkList.assign_node v LinkList.new_builder; LinkList.build a)
          ≡ (do ls ← links_from v; ok (record { x = ls })))
        × ((do a ← ListRepr.assign_node v ListRepr.new_builder; ListRepr.build a)
            ≡ (do ls ← links_from v; ok (record { x = ls })))
  assign_node-links_from v = (
    Follows-build_as _ (ListValues.assign_node-follows v) build-IsList,
    Follows-build_as _ (repr_links_follow v) λ a l e. e,
  )

  same_build : (a b : RootAssembler C) → RootStep.Shows a b → RootRepr.build b ≡ Root.build a
  unfolding RootRepr.build Root.build Root.target LinkList.target
  same_build a _ (RootStep.shows _ _ w (ListStep.shows _ _ (LinkStep.shows _ w' h')) h) = refl

  repr_node_follows :
      (v : Node C)
      → Follows
          (λ b n. RootRepr.build b ≡ ok n)
          (RootRepr.assign_node v RootRepr.new_builder)
          (node_from v)
  unfolding RootRepr.new_builder Root.new_builder ListRepr.new_builder LinkList.new_builder
  repr_node_follows v =
      Simulates-Follows
        (RootStep.assign_node-Lockstep v Root.new_builder _ (
          RootStep.shows Root.new_builder _ false
            (ListStep.shows LinkList.new_builder _ (LinkStep.shows _ false λ e. e)) λ e. e))
        (RootValues.assign_node-follows v) λ a b n r q. shown a b n r q
    where
      shown :
          (a b : RootAssembler C) (n : PbNode C)
          → RootStep.Shows a b
          → IsBuilt n a
          → RootRepr.build b ≡ ok n
      shown a b n r (built_of _ e) = same_build a b r ∙ e

  -- From any node, a representation builder of a PBNode builds by AssignNode the node that the
  -- description node_from names, or gives the error that it names.
  pub repr_assign_node-node_from :
      (v : Node C)
      → (do a ← RootRepr.assign_node v RootRepr.new_builder; RootRepr.build a) ≡ node_from v
  repr_assign_node-node_from v = Follows-build (repr_node_follows v) λ a n e. e
