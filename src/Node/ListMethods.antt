-- ===== src/Node/ListMethods.antt =====
-- ipldsch_satisfaction.go: the methods of PBLinks as a node, typed and as a representation.
use go_codec_dagpb.Common.{ℤ, pos, false, none, some, [], length}
use go_codec_dagpb.Outcome.{Outcome, ok, err, panic, stuck, invalid_segment, ◌>>=◌}
use go_codec_dagpb.Schema.{PbLinks}
use go_codec_dagpb.Node.{Node}
use go_codec_dagpb.Node.Interface.{Kind, PathSegment, Methods, Mixins}
use go_codec_dagpb.Node.Access.{as_int, link_items, link_items_repr}
use go_codec_dagpb.Node.LinksView.{lookup_by_index, row_representation}

-- `i, err := seg.Index()`, with the error that LookupBySegment makes of it.
unfoldable pub segment_index : PathSegment → Outcome ℤ
segment_index seg = elim seg.index [
  | ok i ↦ ok i
  | err e ↦ err (invalid_segment e)
  | panic p ↦ panic p
  | stuck ↦ stuck
]

module _ {C : Type 0} where
  -- (PBLinks).LookupByNode
  unfoldable pub lookup_by_node : PbLinks C → Node C → Outcome (Node C)
  unfolding as_int lookup_by_index
  lookup_by_node n k = do idx ← as_int k; lookup_by_index n idx

  -- (*_PBLinks__Repr).LookupByNode
  unfoldable pub lookup_by_node_repr : PbLinks C → Node C → Outcome (Node C)
  unfolding lookup_by_node row_representation
  lookup_by_node_repr n k = do v ← lookup_by_node n k; row_representation v

  -- (*_PBLinks__Repr).LookupByIndex
  unfoldable pub lookup_by_index_repr : PbLinks C → ℤ → Outcome (Node C)
  unfolding lookup_by_index row_representation
  lookup_by_index_repr n idx = do v ← lookup_by_index n idx; row_representation v

module _ {C : Type 0} (mixins : Mixins C) where
  -- PBLinks
  unfoldable pub pb_links_methods : PbLinks C → Methods C
  unfolding segment_index lookup_by_node lookup_by_index link_items
  pb_links_methods n = record {
    kind = Kind.list;
    lookup_by_string = λ key. (mixins Kind.list).lookup_by_string [];
    lookup_by_node = lookup_by_node n;
    lookup_by_index = lookup_by_index n;
    lookup_by_segment = λ seg. (do i ← segment_index seg; lookup_by_index n i);
    map_iterator = none;
    list_iterator = some (link_items n);
    length = pos (length n.x);
    is_absent = false;
    is_null = false;
    as_bool = (mixins Kind.list).as_bool;
    as_int = (mixins Kind.list).as_int;
    as_float = (mixins Kind.list).as_float;
    as_string = (mixins Kind.list).as_string;
    as_bytes = (mixins Kind.list).as_bytes;
    as_link = (mixins Kind.list).as_link;
  }

  -- _PBLinks__Repr
  unfoldable pub pb_links_repr_methods : PbLinks C → Methods C
  unfolding segment_index lookup_by_node_repr lookup_by_index_repr link_items_repr
  pb_links_repr_methods n = record {
    kind = Kind.list;
    lookup_by_string = λ key. (mixins Kind.list).lookup_by_string [];
    lookup_by_node = lookup_by_node_repr n;
    lookup_by_index = lookup_by_index_repr n;
    lookup_by_segment = λ seg. (do i ← segment_index seg; lookup_by_index_repr n i);
    map_iterator = none;
    list_iterator = some (link_items_repr n);
    length = pos (length n.x);
    is_absent = false;
    is_null = false;
    as_bool = (mixins Kind.list).as_bool;
    as_int = (mixins Kind.list).as_int;
    as_float = (mixins Kind.list).as_float;
    as_string = (mixins Kind.list).as_string;
    as_bytes = (mixins Kind.list).as_bytes;
    as_link = (mixins Kind.list).as_link;
  }
