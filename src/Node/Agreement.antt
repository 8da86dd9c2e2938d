-- ===== src/Node/Agreement.antt =====
-- The methods of this package's nodes against the functions on nodes.
use go_codec_dagpb.Common.{◌≡◌, refl, Bytes, []}
use go_codec_dagpb.Node.{Node, Typed}
use go_codec_dagpb.Node.Interface.{Kind, Mixins}
use go_codec_dagpb.Node.Access
use go_codec_dagpb.Node.Kinds.{Refuses, methods_of}

module _ {C : Type 0} where
  module _ (mixins : Mixins C) where
    -- Where the mixins refuse, the methods of a node of this package are the functions on nodes that
    -- the assemblers and the encoder of this model use.
    pub methods_of-access :
        (refuses : (k : Kind) → Refuses (mixins k)) (t : Typed C) (key : Bytes)
        → let m = methods_of mixins t in
          let v : Node C = Node.typed t in
          (m.as_int ≡ Access.as_int v)
          × (m.as_string ≡ Access.as_string v)
          × (m.as_bytes ≡ Access.as_bytes v)
          × (m.as_link ≡ Access.as_link v)
          × (m.lookup_by_string key ≡ Access.lookup_by_string v key)
          × (m.map_iterator ≡ Access.map_iterator v)
          × (m.list_iterator ≡ Access.list_iterator v)
          × (m.length ≡ Access.length_of v)
          × (m.is_null ≡ Access.is_null v)
          × (m.is_absent ≡ Access.is_absent v)
    unfolding methods_of Access.as_int Access.as_string Access.as_bytes Access.as_link
        Access.lookup_by_string Access.map_iterator Access.list_iterator Access.length_of
        Access.is_null Access.is_absent
    methods_of-access refuses (Typed.bytes n) key =
        let r = refuses Kind.bytes in
        (
          r.int_refused,
          r.string_refused,
          refl,
          r.link_refused,
          r.string_lookup [],
          refl,
          refl,
          refl,
          refl,
          refl,
        )
    methods_of-access refuses (Typed.int n) key =
        let r = refuses Kind.int in
        (
          refl,
          r.string_refused,
          r.bytes_refused,
          r.link_refused,
          r.string_lookup [],
          refl,
          refl,
          refl,
          refl,
          refl,
        )
    methods_of-access refuses (Typed.string n) key =
        let r = refuses Kind.string in
        (
          r.int_refused,
          refl,
          r.bytes_refused,
          r.link_refused,
          r.string_lookup [],
          refl,
          refl,
          refl,
          refl,
          refl,
        )
    methods_of-access refuses (Typed.link n) key =
        let r = refuses Kind.link in
        (
          r.int_refused,
          r.string_refused,
          r.bytes_refused,
          refl,
          r.string_lookup [],
          refl,
          refl,
          refl,
          refl,
          refl,
        )
    methods_of-access refuses (Typed.pb_link n) key =
        let r = refuses Kind.map in
        (
          r.int_refused, r.string_refused, r.bytes_refused, r.link_refused, refl, refl, refl, refl,
          refl, refl,
        )
    methods_of-access refuses (Typed.pb_links n) key =
        let r = refuses Kind.list in
        (
          r.int_refused,
          r.string_refused,
          r.bytes_refused,
          r.link_refused,
          r.string_lookup [],
          refl,
          refl,
          refl,
          refl,
          refl,
        )
    methods_of-access refuses (Typed.pb_node n) key =
        let r = refuses Kind.map in
        (
          r.int_refused, r.string_refused, r.bytes_refused, r.link_refused, refl, refl, refl, refl,
          refl, refl,
        )
    methods_of-access refuses (Typed.pb_link_repr n) key =
        let r = refuses Kind.map in
        (
          r.int_refused, r.string_refused, r.bytes_refused, r.link_refused, refl, refl, refl, refl,
          refl, refl,
        )
    methods_of-access refuses (Typed.pb_links_repr n) key =
        let r = refuses Kind.list in
        (
          r.int_refused,
          r.string_refused,
          r.bytes_refused,
          r.link_refused,
          r.string_lookup [],
          refl,
          refl,
          refl,
          refl,
          refl,
        )
    methods_of-access refuses (Typed.pb_node_repr n) key =
        let r = refuses Kind.map in
        (
          r.int_refused, r.string_refused, r.bytes_refused, r.link_refused, refl, refl, refl, refl,
          refl, refl,
        )
