-- ===== src/Refines/Built.antt =====
-- What builders of the three recursive types build from any node, and what AppendEncode makes of it.
use go_codec_dagpb.Common.{◌≡◌, refl, sym, ◌∙◌, ℤ, pos, negsuc, Bytes, List, [], ◌∷◌, length}
use go_codec_dagpb.Outcome.{
  ok, ◌>>=◌, bind_assoc, bind_ok, Returns, value, error, Returns-bind, Returns-if,
}
use go_codec_dagpb.Outcome.Follows.{Follows, values, Follows-bind, Follows-equal, Follows-Returns}
use go_codec_dagpb.Schema.{Maybe, Link as IpldLink, cid_link, PbLink, PbLinks, PbNode, data_key}
use go_codec_dagpb.Node.{Node, Typed}
use go_codec_dagpb.Node.Iteration.{items_of, link_items-all}
use go_codec_dagpb.Node.Access.{lookup_by_string}
use go_codec_dagpb.Wire.{Protowire, Cids}
use go_codec_dagpb.Marshal.Collect.{collect_link, collect}
use go_codec_dagpb.Marshal.Append.{append_encode, append_list, append_data, is_positive}
use go_codec_dagpb.Assembler.List as LinkList
use go_codec_dagpb.Assembler.Root
use go_codec_dagpb.Reference.NodeFields.{node_from}
use go_codec_dagpb.Refines.RootValues.{IsBuilt, built_of}
use go_codec_dagpb.Refines.RootValues

module _ {C : Type 0} where
  build-IsBuilt :
      (a : _) (n : PbNode C) → IsBuilt n a → Follows (λ a b. a ≡ b) (Root.build a) (ok n)
  build-IsBuilt a n (built_of _ e) = rw e (values refl)

  built_follows :
      (v : Node C)
      → Follows
          (λ a b. a ≡ b)
          (do a ← Root.assign_node v Root.new_builder; Root.build a)
          (do n ← node_from v; ok n)
  built_follows v = Follows-bind (RootValues.assign_node-follows v) build-IsBuilt

  -- For every node, typed or of the data model, a new builder of a PBNode builds from it by
  -- AssignNode the node that the description node_from names, or gives the error that it names.
  pub assign_node-node_from :
      (v : Node C) → (do a ← Root.assign_node v Root.new_builder; Root.build a) ≡ node_from v
  assign_node-node_from v = rw (← bind_ok (node_from v)) (Follows-equal (built_follows v))

  -- AppendEncode of any node is AppendEncode of the typed PBNode that the description node_from names
  -- for it, and the description's error where there is none.
  pub append_encode-node_from :
      (p : Protowire) (k : Cids C) (enc : Bytes) (v : Node C)
      → append_encode p k enc v
        ≡ (node_from v >>= λ n. append_encode p k enc (Node.typed (Typed.pb_node n)))
  unfolding append_encode Root.assign_node Root.new_builder Root.build Root.target LinkList.target
  append_encode-node_from p k enc v =
      sym (bind_assoc (Root.assign_node v Root.new_builder) Root.build _)
      ∙ rw (assign_node-node_from v) refl

  collect_link-Returns :
      (l : PbLink C) → Returns (λ r. Unit {0}) (collect_link (Node.typed (Typed.pb_link l)))
  unfolding collect_link
  collect_link-Returns l = go l.hash l.name.m l.tsize.m l.tsize.v
    where
      go :
          (h : IpldLink C) (n t : Maybe) (i : ℤ)
          → Returns
              (λ r. Unit {0})
              (collect_link (
                Node.typed (
                  Typed.pb_link (record {
                    hash = h;
                    name = record { m = n; v = l.name.v };
                    tsize = record { m = t; v = i };
                  }))))
      go (cid_link c) Maybe.absent Maybe.absent i = value tt
      go (cid_link c) _ Maybe.absent i = value tt
      go (cid_link c) Maybe.absent _ (pos i) = value tt
      go (cid_link c) _ _ (pos i) = value tt
      go (cid_link c) Maybe.absent _ (negsuc i) = error
      go (cid_link c) _ _ (negsuc i) = error
      go _ n t i = error

  collect-Returns :
      (ls : List (PbLink C)) → Returns (λ r. Unit {0}) (collect (items_of Typed.pb_link ls))
  unfolding collect
  collect-Returns [] = value tt
  collect-Returns (l ∷ ls) =
      Returns-bind (collect_link-Returns l)
        λ r _. Returns-bind (collect-Returns ls) λ rs _. value tt

  module _ (p : Protowire) (k : Cids C) where
    list-Returns :
        (enc : Bytes) (n : PbLinks C)
        → Returns (λ b. Unit {0}) (append_list p k enc (Node.typed (Typed.pb_links n)))
    unfolding append_list
    list-Returns enc n =
        Returns-if (is_positive (pos (length n.x)))
          (rw (link_items-all n) (Returns-bind (collect-Returns n.x) λ ls _. value tt)) (value tt)

    node-Returns :
        (enc : Bytes) (n : PbNode C)
        → Returns (λ b. Unit {0}) (append_encode p k enc (Node.typed (Typed.pb_node n)))
    unfolding append_encode append_list append_data Root.assign_node Root.new_builder Root.build
        Root.target LinkList.target
    node-Returns enc n =
        Returns-bind (list-Returns enc n.links) λ enc₁ _. data_returns enc₁ n.bytes.m
      where
        data_returns :
            (enc₁ : Bytes) (m : Maybe)
            → Returns
                (λ b. Unit {0})
                (do
                  byts ←
                      lookup_by_string
                        (Node.typed
                          (Typed.pb_node (record n { bytes = record { m = m; v = n.bytes.v } })))
                        data_key
                  append_data p k enc₁ byts)
        data_returns enc₁ Maybe.absent = value tt
        data_returns enc₁ _ = value tt

    -- For any node, typed or of the data model, and any wire library, AppendEncode returns bytes or an
    -- error: no call of an assembler on its way panics, and every iterator of this package comes to
    -- its end, with no panic of Next. An iterator of another package ends or fails.
    pub append_encode-Returns :
        (enc : Bytes) (v : Node C) → Returns (λ b. Unit {0}) (append_encode p k enc v)
    append_encode-Returns enc v = rw (append_encode-node_from p k enc v) (
        rw (← assign_node-node_from v) (
          Returns-bind (Follows-Returns {P = λ a. Unit {0}} (built_follows v) λ a b e. tt)
            λ n _. node-Returns enc n))
