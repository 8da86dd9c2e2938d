-- ===== src/Copy/Nodes.antt =====
-- AssignNode of a PBNode's builder, and `AppendEncode`, on the views of a message.
use go_codec_dagpb.Common.{◌+◌, ◌≡◌, refl, ap, Bytes, Option, none, some, List, [], ◌∷◌, map, false}
use go_codec_dagpb.Outcome.{ok}
use go_codec_dagpb.Schema.{Maybe, MaState, links_key, data_key}
use go_codec_dagpb.Node.{Node, Typed, Items, Entries}
use go_codec_dagpb.Node.Iteration.{items_of, link_items_repr-all}
use go_codec_dagpb.Message.{LinkValue, Message, field_of, link_of, node_of}
use go_codec_dagpb.Assembler.List as LinkList
use go_codec_dagpb.Assembler.Root
use go_codec_dagpb.Assembler.Root.{RootAssembler}
use go_codec_dagpb.Wire.{Protowire, Cids}
use go_codec_dagpb.Marshal.Append.{append_encode}
use go_codec_dagpb.Unmarshal.Row.{bit_of}
use go_codec_dagpb.Copy.Rows.{
  copied, plain_link, repr_link, plain_link-Copies, repr_link-Copies, last_field, rows_of,
  assign_items-rows,
}

module _ {C : Type 0} where
  rows_of-repr :
      (ls : List (LinkValue C))
      → items_of Typed.pb_link_repr (map link_of ls) ≡ rows_of repr_link ls
  rows_of-repr [] = refl
  rows_of-repr (l ∷ ls) = ap (Items.item (repr_link l)) (rows_of-repr ls)

  abbrev data_entry : Option Bytes → Entries C
  data_entry none = Entries.end
  data_entry (some b) = Entries.entry (Node.string data_key) (Node.bytes b) Entries.end

  -- A message as a map of the data model: Links, a list of maps, and Data if it is there.
  abbrev pub plain_node : Message C → Node C
  plain_node m = Node.map (
      Entries.entry (Node.string links_key) (Node.list (rows_of plain_link m.links))
        (data_entry m.bytes))

  abbrev pub typed_node : Message C → Node C
  typed_node m = Node.typed (Typed.pb_node (node_of m))

  abbrev pub repr_node : Message C → Node C
  repr_node m = Node.typed (Typed.pb_node_repr (node_of m))

  assign_links-plain :
      (ls : List (LinkValue C))
      → LinkList.assign_node (Node.list (rows_of plain_link ls)) LinkList.new_builder
        ≡ ok (copied (map link_of ls) (last_field ls))
  unfolding LinkList.assign_node
  assign_links-plain ls = assign_items-rows plain_link plain_link-Copies ls

  assign_links-repr :
      (ls : List (LinkValue C))
      → LinkList.assign_node
          (Node.typed (Typed.pb_links_repr (record { x = map link_of ls })))
          LinkList.new_builder
        ≡ ok (copied (map link_of ls) (last_field ls))
  unfolding LinkList.assign_node
  assign_links-repr ls =
      rw (link_items_repr-all (record { x = map link_of ls }))
        (rw (rows_of-repr ls) (assign_items-rows repr_link repr_link-Copies ls))

  -- The builder is given a node, and Build returns the node of the message.
  abbrev pub Accepts : Node C → Message C → Type 0
  Accepts v m =
      (a : RootAssembler C) × (Root.assign_node v Root.new_builder ≡ ok a)
      × (Root.build a ≡ ok (node_of m))

  -- The builder after Finish.
  abbrev filled : List (LinkValue C) → Option Bytes → RootAssembler C
  filled ls d = record {
    bytes = field_of [] d;
    m = Maybe.value;
    state = MaState.finished;
    s = 1 + bit_of 2 d;
    f = bit_of 1 d;
    links = record (copied (map link_of ls) (last_field ls)) { m = Maybe.absent };
    links_w = false;
  }

  Accepts-plain : (m : Message C) → Accepts (plain_node m) m
  unfolding Root.assign_node Root.build Root.new_builder LinkList.new_builder
  Accepts-plain m = go m.links m.bytes
    where
      go :
          (ls : List (LinkValue C)) (d : Option Bytes)
          → Accepts
              (plain_node (record { links = ls; bytes = d }))
              (record { links = ls; bytes = d })
      go ls none = (filled ls none, rw (assign_links-plain ls) refl, refl)
      go ls (some b) = (filled ls (some b), rw (assign_links-plain ls) refl, refl)

  Accepts-repr : (m : Message C) → Accepts (repr_node m) m
  unfolding Root.assign_node Root.build Root.new_builder LinkList.new_builder
  Accepts-repr m = go m.links m.bytes
    where
      go :
          (ls : List (LinkValue C)) (d : Option Bytes)
          → Accepts
              (repr_node (record { links = ls; bytes = d }))
              (record { links = ls; bytes = d })
      go ls none = (filled ls none, rw (assign_links-repr ls) refl, refl)
      go ls (some b) = (filled ls (some b), rw (assign_links-repr ls) refl, refl)

  -- Builders of a PBNode take a message in each of its three forms, a typed node, its representation
  -- and a map of the data model with Links first: AssignNode succeeds, and Build returns the node of
  -- the message.
  pub assign_node-forms :
      (m : Message C)
      → Accepts (typed_node m) m × Accepts (repr_node m) m × Accepts (plain_node m) m
  unfolding Root.assign_node Root.build Root.new_builder LinkList.new_builder
  assign_node-forms m = ((_, refl, refl), Accepts-repr m, Accepts-plain m)

  module _ (p : Protowire) (k : Cids C) where
    append_encode-of_Accepts :
        (v : Node C) (m : Message C) (enc : Bytes)
        → Accepts v m
        → append_encode p k enc v ≡ append_encode p k enc (typed_node m)
    unfolding append_encode
    append_encode-of_Accepts v m enc (a, e, built) = rw e (rw built refl)

    -- AppendEncode gives the same result, bytes or error, for a message as a typed node, as the
    -- representation of one, and as a map of the data model with Links first.
    pub append_encode-forms :
        (m : Message C) (enc : Bytes)
        → (append_encode p k enc (repr_node m) ≡ append_encode p k enc (typed_node m))
          × (append_encode p k enc (plain_node m) ≡ append_encode p k enc (typed_node m))
    append_encode-forms m enc = (
      append_encode-of_Accepts (repr_node m) m enc (Accepts-repr m),
      append_encode-of_Accepts (plain_node m) m enc (Accepts-plain m),
    )
