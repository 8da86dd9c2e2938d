-- ===== src/Node/MapMethods.antt =====
-- ipldsch_satisfaction.go: the methods of PBLink and PBNode as nodes, typed and as representations.
use go_codec_dagpb.Common.{pos, false, none, some}
use go_codec_dagpb.Outcome.{◌>>=◌}
use go_codec_dagpb.Schema.{PbLink, PbNode}
use go_codec_dagpb.Node.Interface.{Kind, Methods, Mixins}
use go_codec_dagpb.Node.Access.{
  as_string, link_entries, link_entries_repr, node_entries, node_entries_repr,
}
use go_codec_dagpb.Node.LinkView
use go_codec_dagpb.Node.NodeView

module _ {C : Type 0} (mixins : Mixins C) where
  -- PBLink
  unfoldable pub pb_link_methods : PbLink C → Methods C
  unfolding as_string LinkView.lookup link_entries
  pb_link_methods n = record {
    kind = Kind.map;
    lookup_by_string = LinkView.lookup n;
    lookup_by_node = λ key. (do ks ← as_string key; LinkView.lookup n ks);
    lookup_by_index = λ idx. (mixins Kind.map).lookup_by_index (pos 0);
    lookup_by_segment = λ seg. LinkView.lookup n seg.string;
    map_iterator = some (link_entries n);
    list_iterator = none;
    length = pos 3;
    is_absent = false;
    is_null = false;
    as_bool = (mixins Kind.map).as_bool;
    as_int = (mixins Kind.map).as_int;
    as_float = (mixins Kind.map).as_float;
    as_string = (mixins Kind.map).as_string;
    as_bytes = (mixins Kind.map).as_bytes;
    as_link = (mixins Kind.map).as_link;
  }

  -- _PBLink__Repr
  unfoldable pub pb_link_repr_methods : PbLink C → Methods C
  unfolding as_string LinkView.lookup_repr LinkView.repr_length link_entries_repr
  pb_link_repr_methods n = record {
    kind = Kind.map;
    lookup_by_string = LinkView.lookup_repr n;
    lookup_by_node = λ key. (do ks ← as_string key; LinkView.lookup_repr n ks);
    lookup_by_index = λ idx. (mixins Kind.map).lookup_by_index (pos 0);
    lookup_by_segment = λ seg. LinkView.lookup_repr n seg.string;
    map_iterator = some (link_entries_repr n);
    list_iterator = none;
    length = pos (LinkView.repr_length n);
    is_absent = false;
    is_null = false;
    as_bool = (mixins Kind.map).as_bool;
    as_int = (mixins Kind.map).as_int;
    as_float = (mixins Kind.map).as_float;
    as_string = (mixins Kind.map).as_string;
    as_bytes = (mixins Kind.map).as_bytes;
    as_link = (mixins Kind.map).as_link;
  }

  -- PBNode
  unfoldable pub pb_node_methods : PbNode C → Methods C
  unfolding as_string NodeView.lookup node_entries
  pb_node_methods n = record {
    kind = Kind.map;
    lookup_by_string = NodeView.lookup n;
    lookup_by_node = λ key. (do ks ← as_string key; NodeView.lookup n ks);
    lookup_by_index = λ idx. (mixins Kind.map).lookup_by_index (pos 0);
    lookup_by_segment = λ seg. NodeView.lookup n seg.string;
    map_iterator = some (node_entries n);
    list_iterator = none;
    length = pos 2;
    is_absent = false;
    is_null = false;
    as_bool = (mixins Kind.map).as_bool;
    as_int = (mixins Kind.map).as_int;
    as_float = (mixins Kind.map).as_float;
    as_string = (mixins Kind.map).as_string;
    as_bytes = (mixins Kind.map).as_bytes;
    as_link = (mixins Kind.map).as_link;
  }

  -- _PBNode__Repr
  unfoldable pub pb_node_repr_methods : PbNode C → Methods C
  unfolding as_string NodeView.lookup_repr NodeView.repr_length node_entries_repr
  pb_node_repr_methods n = record {
    kind = Kind.map;
    lookup_by_string = NodeView.lookup_repr n;
    lookup_by_node = λ key. (do ks ← as_string key; NodeView.lookup_repr n ks);
    lookup_by_index = λ idx. (mixins Kind.map).lookup_by_index (pos 0);
    lookup_by_segment = λ seg. NodeView.lookup_repr n seg.string;
    map_iterator = some (node_entries_repr n);
    list_iterator = none;
    length = pos (NodeView.repr_length n);
    is_absent = false;
    is_null = false;
    as_bool = (mixins Kind.map).as_bool;
    as_int = (mixins Kind.map).as_int;
    as_float = (mixins Kind.map).as_float;
    as_string = (mixins Kind.map).as_string;
    as_bytes = (mixins Kind.map).as_bytes;
    as_link = (mixins Kind.map).as_link;
  }
