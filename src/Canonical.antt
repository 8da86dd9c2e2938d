-- ===== src/Canonical.antt =====
-- marshal.go: when two messages have the same encoding. The encoding forgets the order of links with
-- different names, and nothing else.
use go_codec_dagpb.Common.{
  ◌≡◌, ◌↔◌, sym, ap, ◌∙◌, Bytes, List, [], ◌++◌, filter, less-asym, less-negative_trans,
}
use go_codec_dagpb.Outcome.{Outcome, ok}
use go_codec_dagpb.Message.{LinkValue, Message, node_of}
use go_codec_dagpb.Node.{Node, Typed}
use go_codec_dagpb.Wire.{Protowire, IsReader, IsWriter, IsCodec, Cids}
use go_codec_dagpb.Assembler.Root
use go_codec_dagpb.Assembler.Root.{RootAssembler}
use go_codec_dagpb.Marshal.Image.{or_empty, image, sorted, name_less, CanEncode}
use go_codec_dagpb.Marshal.Append.{append_encode}
use go_codec_dagpb.Marshal.Encoded.{CanEncode-sorted}
use go_codec_dagpb.Marshal.Encodable.{append_encode-image}
use go_codec_dagpb.Marshal.Order.{IsOrdered, stable_sort-IsOrdered, filter-stable_sort}
use go_codec_dagpb.Marshal.Sort.{stable_sort}
use go_codec_dagpb.Marshal.LinkOrder.{less-same}
use go_codec_dagpb.Marshal.Unique.{has_key, SameByKey, ordered_unique}
use go_codec_dagpb.Unmarshal.Target.{node_builder}
use go_codec_dagpb.Unmarshal.Node.{decode_bytes}
use go_codec_dagpb.Unmarshal.NodeImage.{decode_bytes-image}
use go_codec_dagpb.Unmarshal.ReplayBuilder.{Yields, Yields-replay}
use go_codec_dagpb.Unmarshal.Accepts.{node_of-inj}

module _ {C : Type 0} where
  -- The name that the links are sorted by: an absent one is the empty one.
  abbrev pub name_of : LinkValue C → Bytes
  name_of l = or_empty l.name

  -- Two messages with the same Data and, for each name, the same links in the same order.
  abbrev pub SameByName : Message C → Message C → Type 0
  SameByName m m' = (m.bytes ≡ m'.bytes) × SameByKey name_of m.links m'.links

  sorted-IsOrdered : (ls : List (LinkValue C)) → IsOrdered name_less (stable_sort name_less ls)
  sorted-IsOrdered =
      stable_sort-IsOrdered name_less (λ x y. less-asym (name_of x) (name_of y))
        (λ x y z. less-negative_trans (name_of x) (name_of y) (name_of z))

  filter-sorted :
      (n : Bytes) (ls : List (LinkValue C))
      → filter (has_key name_of n) (stable_sort name_less ls) ≡ filter (has_key name_of n) ls
  filter-sorted n =
      filter-stable_sort name_less (has_key name_of n) (λ x y. less-same (name_of x) (name_of y) n)

  sorted-SameByName : (m m' : Message C) → SameByName m m' → sorted m ≡ sorted m'
  sorted-SameByName m m' (bytes, same) =
      let links : stable_sort name_less m.links ≡ stable_sort name_less m'.links =
        ordered_unique name_of _ _ (sorted-IsOrdered m.links) (sorted-IsOrdered m'.links)
          (λ n. filter-sorted n m.links ∙ same n ∙ sym (filter-sorted n m'.links)) in
      λ i. record { links = links i; bytes = bytes i }

  SameByName-sorted : (m m' : Message C) → sorted m ≡ sorted m' → SameByName m m'
  SameByName-sorted m m' e = (
    ap (λ m. m.bytes) e,
    λ n.
        sym (filter-sorted n m.links)
        ∙ ap (λ m. filter (has_key name_of n) m.links) e
        ∙ filter-sorted n m'.links,
  )

  Yields-inj :
      (m m' : Message C) (r : Outcome (RootAssembler C)) → Yields m r → Yields m' r → m ≡ m'
  Yields-inj m m' r (a, e, built) (a', e', built') =
      let states : a ≡ a' = cc in let nodes : node_of m ≡ node_of m' = cc in node_of-inj m m' nodes

  module _ (p : Protowire) (r : IsReader p) (w : IsWriter p) (q : IsCodec p) (k : Cids C) where
    decoded-sorted :
        (m : Message C)
        → CanEncode p k m
        → Yields (sorted m) (decode_bytes p k node_builder (image p k (sorted m)) Root.new_builder)
    decoded-sorted m c =
        rw
          (decode_bytes-image p r q k node_builder (sorted m) Root.new_builder
            (CanEncode-sorted p w k m c))
          (Yields-replay (sorted m))

    -- For two messages that can be encoded, AppendEncode of their typed nodes gives the same bytes
    -- exactly where they have the same Data and, for each name, the same links in the same order.
    pub append_encode-SameByName :
        (m m' : Message C)
        → CanEncode p k m
        → CanEncode p k m'
        → (append_encode p k [] (Node.typed (Typed.pb_node (node_of m)))
            ≡ append_encode p k [] (Node.typed (Typed.pb_node (node_of m'))))
          ↔ SameByName m m'
    append_encode-SameByName m m' c c' =
        let e = append_encode-image p w k m [] c in
        let e' = append_encode-image p w k m' [] c' in
        (
          λ same.
              let both : ok ([] ++ image p k (sorted m)) ≡ ok ([] ++ image p k (sorted m')) =
                sym e ∙ same ∙ e' in
              let bytes : image p k (sorted m) ≡ image p k (sorted m') = cc in
              SameByName-sorted m m' (
                Yields-inj (sorted m) (sorted m') _ (decoded-sorted m c)
                  (rw (← bytes) at (decoded-sorted m' c'))),
          λ same. e ∙ ap (λ n. ok ([] ++ image p k n)) (sorted-SameByName m m' same) ∙ sym e',
        )
