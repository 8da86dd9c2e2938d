-- ===== src/Refines/ListValues.antt =====
-- The PBLinks assembler under AssignNode follows the description.
use go_codec_dagpb.Common.{ℕ, ◌≡◌, refl, List, [], ◌∷◌, ◌++◌, append-nil, append_assoc}
use go_codec_dagpb.Outcome.{ok, ◌>>=◌, bind_assoc, bind_ok}
use go_codec_dagpb.Outcome.Follows.{Follows, values, errors, Follows-bind, Follows-map}
use go_codec_dagpb.Schema.{Maybe, LaState, PbLink}
use go_codec_dagpb.Node.{Node, Typed, Items}
use go_codec_dagpb.Node.Iteration.{items_of, link_items_repr-all}
use go_codec_dagpb.Node.Access.{list_iterator}
use go_codec_dagpb.Assembler.Link
use go_codec_dagpb.Assembler.Link.{LinkAssembler}
use go_codec_dagpb.Assembler.List as LinkList
use go_codec_dagpb.Assembler.List.{ListAssembler}
use go_codec_dagpb.Reference.NodeFields.{links_of, links_from}
use go_codec_dagpb.Refines.LinkValues.{begun, IsRow, row_of}
use go_codec_dagpb.Refines.LinkValues

module _ {C : Type 0} where
  -- The links `ls` were assigned, in a list whose Maybe is `m`: none yet, or a last row is at work.
  pub data At (m : Maybe) (ls : List (PbLink C)) : ListAssembler C → Type 0 where
    none_yet :
        (f : ℕ)
        → ls ≡ []
        → At m ls (record {
          x = [];
          m = m;
          state = LaState.initial;
          va = record Link.zero_assembler { f = f };
        })
    row_done :
        (xs : List (PbLink C)) (l : PbLink C) (va : LinkAssembler C)
        → IsRow l va
        → ls ≡ xs ++ l ∷ []
        → At m ls (record { x = xs; m = m; state = LaState.mid_value; va = va })

  module _ (m : Maybe) where
    assemble_value-At :
        (ls : List (PbLink C)) (a : ListAssembler C)
        → At m ls a
        → (f : ℕ) × (LinkList.assemble_value a
            ≡ ok (record { x = ls; m = m; state = LaState.mid_value; va = begun f }))
    unfolding LinkList.assemble_value
    assemble_value-At ls a (none_yet f e) = (f, rw e refl)
    assemble_value-At ls a (row_done xs l va (row_of st s f) e) = (f, rw e refl)

    items_follow :
        (xs : Items C) (ls : List (PbLink C)) (a : ListAssembler C)
        → At m ls a
        → Follows (λ a rest. At m (ls ++ rest) a) (LinkList.assign_items xs a) (links_of xs)
    unfolding LinkList.assign_items LinkList.on_row
    items_follow Items.last ls a h = values (rw (append-nil ls) h)
    items_follow (Items.item_fails e) ls a h = errors
    items_follow (Items.item v xs) ls a h =
        let (f, e) = assemble_value-At ls a h in
        rw e (
          rw bind_assoc (
            Follows-bind (LinkValues.assign_node-follows f v) λ va l r.
              Follows-map (λ rest. l ∷ rest)
                (items_follow xs (ls ++ l ∷ [])
                  (record { x = ls; m = m; state = LaState.mid_value; va = va })
                  (row_done ls l va r refl))
                λ a' rest h'. rw (append_assoc ls (l ∷ []) rest) at h'))

  -- The assembler holds the finished list `ls`.
  pub data IsList (ls : List (PbLink C)) : ListAssembler C → Type 0 where
    list_of :
        (st : LaState) (f : ℕ)
        → IsList ls (record {
          x = ls;
          m = Maybe.value;
          state = st;
          va = record Link.zero_assembler { f = f };
        })

  finish-At :
      (m : Maybe) (ls : List (PbLink C)) (a : ListAssembler C)
      → At m ls a
      → Follows (λ a ls. IsList ls a) (LinkList.finish a) (ok ls)
  unfolding LinkList.finish
  finish-At m ls a (none_yet f e) = values (rw e (list_of _ f))
  finish-At m ls a (row_done xs l va (row_of st s f) e) = values (rw e (list_of _ f))

  filled :
      (xs : Items C)
      → Follows
          (λ a ls. IsList ls a)
          (do a ← LinkList.assign_items xs LinkList.new_builder; LinkList.finish a)
          (links_of xs)
  unfolding LinkList.new_builder
  filled xs = rw (← bind_ok (links_of xs)) (
      Follows-bind (items_follow Maybe.absent xs [] _ (none_yet 0 refl))
        λ a ls h. finish-At Maybe.absent ls a h)

  -- AssignNode of the PBLinks assembler follows the description, for every node.
  pub assign_node-follows :
      (v : Node C)
      → Follows (λ a ls. IsList ls a) (LinkList.assign_node v LinkList.new_builder) (links_from v)
  unfolding LinkList.assign_node LinkList.new_builder links_from list_iterator
  assign_node-follows (Node.typed (Typed.pb_links n)) = values (list_of _ 0)
  assign_node-follows (Node.list xs) = filled xs
  assign_node-follows (Node.typed (Typed.pb_links_repr n)) =
      rw (link_items_repr-all n) (filled (items_of Typed.pb_link_repr n.x))
  assign_node-follows _ = errors
