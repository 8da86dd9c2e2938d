-- ===== src/Node/ScalarMethods.antt =====
-- ipldsch_satisfaction.go: the methods of Bytes, Int, Link and String as nodes.
use go_codec_dagpb.Common.{ℤ, pos, negsuc, Bytes, false, none, []}
use go_codec_dagpb.Outcome.{ok}
use go_codec_dagpb.Schema.{Link}
use go_codec_dagpb.Node.Interface.{Kind, Methods, Mixins}

module _ {C : Type 0} (mixins : Mixins C) where
  -- Bytes
  unfoldable pub bytes_methods : Bytes → Methods C
  bytes_methods x = record {
    kind = Kind.bytes;
    lookup_by_string = λ key. (mixins Kind.bytes).lookup_by_string [];
    lookup_by_node = λ key. (mixins Kind.bytes).lookup_by_node none;
    lookup_by_index = λ idx. (mixins Kind.bytes).lookup_by_index (pos 0);
    lookup_by_segment = λ seg. (mixins Kind.bytes).lookup_by_segment seg;
    map_iterator = none;
    list_iterator = none;
    length = negsuc 0;
    is_absent = false;
    is_null = false;
    as_bool = (mixins Kind.bytes).as_bool;
    as_int = (mixins Kind.bytes).as_int;
    as_float = (mixins Kind.bytes).as_float;
    as_string = (mixins Kind.bytes).as_string;
    as_bytes = ok x;
    as_link = (mixins Kind.bytes).as_link;
  }

  -- Int
  unfoldable pub int_methods : ℤ → Methods C
  int_methods x = record {
    kind = Kind.int;
    lookup_by_string = λ key. (mixins Kind.int).lookup_by_string [];
    lookup_by_node = λ key. (mixins Kind.int).lookup_by_node none;
    lookup_by_index = λ idx. (mixins Kind.int).lookup_by_index (pos 0);
    lookup_by_segment = λ seg. (mixins Kind.int).lookup_by_segment seg;
    map_iterator = none;
    list_iterator = none;
    length = negsuc 0;
    is_absent = false;
    is_null = false;
    as_bool = (mixins Kind.int).as_bool;
    as_int = ok x;
    as_float = (mixins Kind.int).as_float;
    as_string = (mixins Kind.int).as_string;
    as_bytes = (mixins Kind.int).as_bytes;
    as_link = (mixins Kind.int).as_link;
  }

  -- Link
  unfoldable pub link_methods : Link C → Methods C
  link_methods x = record {
    kind = Kind.link;
    lookup_by_string = λ key. (mixins Kind.link).lookup_by_string [];
    lookup_by_node = λ key. (mixins Kind.link).lookup_by_node none;
    lookup_by_index = λ idx. (mixins Kind.link).lookup_by_index (pos 0);
    lookup_by_segment = λ seg. (mixins Kind.link).lookup_by_segment seg;
    map_iterator = none;
    list_iterator = none;
    length = negsuc 0;
    is_absent = false;
    is_null = false;
    as_bool = (mixins Kind.link).as_bool;
    as_int = (mixins Kind.link).as_int;
    as_float = (mixins Kind.link).as_float;
    as_string = (mixins Kind.link).as_string;
    as_bytes = (mixins Kind.link).as_bytes;
    as_link = ok x;
  }

  -- String
  unfoldable pub string_methods : Bytes → Methods C
  string_methods x = record {
    kind = Kind.string;
    lookup_by_string = λ key. (mixins Kind.string).lookup_by_string [];
    lookup_by_node = λ key. (mixins Kind.string).lookup_by_node none;
    lookup_by_index = λ idx. (mixins Kind.string).lookup_by_index (pos 0);
    lookup_by_segment = λ seg. (mixins Kind.string).lookup_by_segment seg;
    map_iterator = none;
    list_iterator = none;
    length = negsuc 0;
    is_absent = false;
    is_null = false;
    as_bool = (mixins Kind.string).as_bool;
    as_int = (mixins Kind.string).as_int;
    as_float = (mixins Kind.string).as_float;
    as_string = ok x;
    as_bytes = (mixins Kind.string).as_bytes;
    as_link = (mixins Kind.string).as_link;
  }
