-- ===== src/Prototype/Settled.antt =====
-- What a representation node holds, read back into a typed node.
use go_codec_dagpb.Common.{◌≡◌, refl, pos, List, [], ◌∷◌, map}
use go_codec_dagpb.Outcome.{ok}
use go_codec_dagpb.Schema.{Maybe, PbLink, PbLinks, PbNode, Field}
use go_codec_dagpb.Message.{field_of}
use go_codec_dagpb.Node.{Node, Typed}
use go_codec_dagpb.Node.Access.{map_iterator, list_iterator, as_link, as_string, as_int, as_bytes}
use go_codec_dagpb.Assembler.Link
use go_codec_dagpb.Assembler.Root
use go_codec_dagpb.Node.Iteration.{items_of, link_items_repr-all}
use go_codec_dagpb.Reference.MessageOf.{optional}
use go_codec_dagpb.Reference.LinkFields.{link_from}
use go_codec_dagpb.Reference.NodeFields.{links_of, links_from, node_from}

-- A field that is absent or has a value.
abbrev pub settled_field {ℓ} : {A : Type ℓ} → A → Field A → Field A
settled_field z fd = field_of z (optional fd)

module _ {C : Type 0} where
  abbrev pub settled_link : PbLink C → PbLink C
  settled_link l = record {
    hash = l.hash;
    name = settled_field [] l.name;
    tsize = settled_field (pos 0) l.tsize;
  }

  abbrev pub settled_links : PbLinks C → PbLinks C
  settled_links ls = record { x = map settled_link ls.x }

  abbrev pub settled_node : PbNode C → PbNode C
  settled_node n = record { links = settled_links n.links; bytes = settled_field [] n.bytes }

  pub link_from-repr :
      (l : PbLink C) → link_from (Node.typed (Typed.pb_link_repr l)) ≡ ok (settled_link l)
  unfolding link_from map_iterator as_link as_string as_int Link.child_of
  link_from-repr l = go l.name.m l.tsize.m
    where
      go :
          (m m' : Maybe)
          → let l' : PbLink C = record l {
            name = record { m = m; v = l.name.v };
            tsize = record { m = m'; v = l.tsize.v };
          } in
            link_from (Node.typed (Typed.pb_link_repr l')) ≡ ok (settled_link l')
      go Maybe.absent Maybe.absent = refl
      go Maybe.absent _ = refl
      go _ Maybe.absent = refl
      go _ _ = refl

  links_of-repr :
      (ls : List (PbLink C)) → links_of (items_of Typed.pb_link_repr ls) ≡ ok (map settled_link ls)
  links_of-repr [] = refl
  links_of-repr (l ∷ ls) = rw (link_from-repr l, links_of-repr ls) refl

  pub links_from-repr :
      (ls : PbLinks C)
      → links_from (Node.typed (Typed.pb_links_repr ls)) ≡ ok (map settled_link ls.x)
  unfolding links_from list_iterator
  links_from-repr ls = rw (link_items_repr-all ls) (links_of-repr ls.x)

  pub node_from-repr :
      (n : PbNode C) → node_from (Node.typed (Typed.pb_node_repr n)) ≡ ok (settled_node n)
  unfolding node_from map_iterator list_iterator as_string as_bytes Root.child_of
  node_from-repr n = go n.bytes.m
    where
      go :
          (m : Maybe)
          → let n' : PbNode C = record n { bytes = record { m = m; v = n.bytes.v } } in
            node_from (Node.typed (Typed.pb_node_repr n')) ≡ ok (settled_node n')
      go Maybe.absent = rw (link_items_repr-all n.links) (rw (links_of-repr n.links.x) refl)
      go _ = rw (link_items_repr-all n.links) (rw (links_of-repr n.links.x) refl)
