-- ===== src/Node/Access.antt =====
-- The methods of ipld.Node that the assemblers and the encoder call, on any node.
use go_codec_dagpb.Common.{
  ℕ, suc, ◌+◌, ℤ, pos, negsuc, Bytes, Bool, true, false, Option, none, some, length,
}
use go_codec_dagpb.Outcome.{Outcome, ok, err, wrong_kind}
use go_codec_dagpb.Schema.{Link, PbLink, PbLinks, PbNode}
use go_codec_dagpb.Node.{Node, Typed, Items, Entries}
use go_codec_dagpb.Node.LinkView
use go_codec_dagpb.Node.LinksView
use go_codec_dagpb.Node.NodeView

module _ {C : Type 0} where
  unfoldable pub is_null : Node C → Bool
  is_null Node.null = true
  is_null _ = false

  unfoldable pub is_absent : Node C → Bool
  is_absent Node.absent = true
  is_absent _ = false

  -- AsBytes, AsInt, AsString, AsLink: an error at any other kind.
  unfoldable pub as_bytes : Node C → Outcome Bytes
  as_bytes (Node.bytes b) = ok b
  as_bytes (Node.typed (Typed.bytes b)) = ok b
  as_bytes _ = err wrong_kind

  unfoldable pub as_int : Node C → Outcome ℤ
  as_int (Node.int i) = ok i
  as_int (Node.typed (Typed.int i)) = ok i
  as_int _ = err wrong_kind

  unfoldable pub as_string : Node C → Outcome Bytes
  as_string (Node.string s) = ok s
  as_string (Node.typed (Typed.string s)) = ok s
  as_string _ = err wrong_kind

  unfoldable pub as_link : Node C → Outcome (Link C)
  as_link (Node.link l) = ok l
  as_link (Node.typed (Typed.link l)) = ok l
  as_link _ = err wrong_kind

  -- LookupByString on the nodes that the encoder looks into.
  unfoldable pub lookup_by_string : Node C → Bytes → Outcome (Node C)
  unfolding LinkView.lookup NodeView.lookup LinkView.lookup_repr NodeView.lookup_repr
  lookup_by_string (Node.typed (Typed.pb_link n)) key = LinkView.lookup n key
  lookup_by_string (Node.typed (Typed.pb_node n)) key = NodeView.lookup n key
  lookup_by_string (Node.typed (Typed.pb_link_repr n)) key = LinkView.lookup_repr n key
  lookup_by_string (Node.typed (Typed.pb_node_repr n)) key = NodeView.lookup_repr n key
  lookup_by_string _ key = err wrong_kind

  -- What the map iterators of this package's nodes yield.
  unfoldable pub link_entries : PbLink C → Outcome (Entries C)
  unfolding LinkView.run_iterator LinkView.next LinkView.done
  link_entries n = LinkView.run_iterator (LinkView.next n) LinkView.done 4 0

  unfoldable pub link_entries_repr : PbLink C → Outcome (Entries C)
  unfolding LinkView.run_iterator LinkView.repr_next LinkView.repr_done LinkView.repr_end
  link_entries_repr n =
      LinkView.run_iterator (LinkView.repr_next n)
        (λ idx. LinkView.repr_done idx (LinkView.repr_end n)) 4 0

  unfoldable pub node_entries : PbNode C → Outcome (Entries C)
  unfolding LinkView.run_iterator NodeView.next NodeView.done
  node_entries n = LinkView.run_iterator (NodeView.next n) NodeView.done 3 0

  unfoldable pub node_entries_repr : PbNode C → Outcome (Entries C)
  unfolding LinkView.run_iterator NodeView.repr_next NodeView.repr_done NodeView.repr_end
  node_entries_repr n =
      LinkView.run_iterator (NodeView.repr_next n)
        (λ idx. NodeView.repr_done idx (NodeView.repr_end n)) 3 0

  unfoldable pub link_items : PbLinks C → Outcome (Items C)
  unfolding LinksView.run_iterator LinksView.next LinksView.done
  link_items n = LinksView.run_iterator (LinksView.next n) (LinksView.done n) (length n.x + 1) 0

  unfoldable pub link_items_repr : PbLinks C → Outcome (Items C)
  unfolding LinksView.run_iterator LinksView.repr_next LinksView.done
  link_items_repr n =
      LinksView.run_iterator (LinksView.repr_next n) (LinksView.done n) (length n.x + 1) 0

  -- MapIterator of a node of map kind; `none` at the other kinds.
  unfoldable pub map_iterator : Node C → Option (Outcome (Entries C))
  unfolding link_entries link_entries_repr node_entries node_entries_repr
  map_iterator (Node.map es) = some (ok es)
  map_iterator (Node.typed (Typed.pb_link n)) = some (link_entries n)
  map_iterator (Node.typed (Typed.pb_link_repr n)) = some (link_entries_repr n)
  map_iterator (Node.typed (Typed.pb_node n)) = some (node_entries n)
  map_iterator (Node.typed (Typed.pb_node_repr n)) = some (node_entries_repr n)
  map_iterator _ = none

  -- ListIterator of a node of list kind; `none` at the other kinds.
  unfoldable pub list_iterator : Node C → Option (Outcome (Items C))
  unfolding link_items link_items_repr
  list_iterator (Node.list xs) = some (ok xs)
  list_iterator (Node.typed (Typed.pb_links n)) = some (link_items n)
  list_iterator (Node.typed (Typed.pb_links_repr n)) = some (link_items_repr n)
  list_iterator _ = none

  unfoldable pub count_items : Items C → ℕ
  count_items Items.last = 0
  count_items (Items.item_fails e) = 0
  count_items (Items.item v xs) = suc (count_items xs)

  unfoldable pub count_entries : Entries C → ℕ
  count_entries Entries.end = 0
  count_entries (Entries.entry_fails e) = 0
  count_entries (Entries.entry key v es) = suc (count_entries es)

  -- Length: -1 at a node that is neither a list nor a map.
  unfoldable pub length_of : Node C → ℤ
  unfolding count_items count_entries LinkView.repr_length NodeView.repr_length
  length_of (Node.list xs) = pos (count_items xs)
  length_of (Node.map es) = pos (count_entries es)
  length_of (Node.typed (Typed.pb_links n)) = pos (length n.x)
  length_of (Node.typed (Typed.pb_links_repr n)) = pos (length n.x)
  length_of (Node.typed (Typed.pb_link n)) = pos 3
  length_of (Node.typed (Typed.pb_link_repr n)) = pos (LinkView.repr_length n)
  length_of (Node.typed (Typed.pb_node n)) = pos 2
  length_of (Node.typed (Typed.pb_node_repr n)) = pos (NodeView.repr_length n)
  length_of _ = negsuc 0
