-- ===== src/Node/Kinds.antt =====
-- The methods of this package's nodes together: what a node's kind says of them.
use go_codec_dagpb.Common.{ℤ, pos, negsuc, ◌≡◌, refl, Bytes, Bool, true, false, Option, none, some}
use go_codec_dagpb.Outcome.{Outcome, ok, err, wrong_kind}
use go_codec_dagpb.Node.{Node, Typed}
use go_codec_dagpb.Node.Interface.{Kind, PathSegment, Methods, Mixin, Mixins}
use go_codec_dagpb.Node.ScalarMethods.{bytes_methods, int_methods, link_methods, string_methods}
use go_codec_dagpb.Node.MapMethods.{
  pb_link_methods, pb_link_repr_methods, pb_node_methods, pb_node_repr_methods,
}
use go_codec_dagpb.Node.ListMethods.{pb_links_methods, pb_links_repr_methods}

abbrev succeeds {ℓ} : {A : Type ℓ} → Outcome A → Bool
succeeds (ok a) = true
succeeds _ = false

abbrev is_set {ℓ} : {A : Type ℓ} → Option A → Bool
is_set none = false
is_set (some a) = true

abbrev negative : ℤ → Option ℤ
negative (pos n) = none
negative (negsuc n) = some (negsuc n)

-- Which of a node's methods give something, and its Length where that is negative.
pub record Profile : Type 0 where
  as_bool : Bool
  as_int : Bool
  as_float : Bool
  as_string : Bool
  as_bytes : Bool
  as_link : Bool
  map_iterator : Bool
  list_iterator : Bool
  negative_length : Option ℤ

abbrev nothing : Profile
nothing = record {
  as_bool = false;
  as_int = false;
  as_float = false;
  as_string = false;
  as_bytes = false;
  as_link = false;
  map_iterator = false;
  list_iterator = false;
  negative_length = some (negsuc 0);
}

-- The data model's rule.
abbrev pub profile_at : Kind → Profile
profile_at Kind.map = record nothing { map_iterator = true; negative_length = none }
profile_at Kind.list = record nothing { list_iterator = true; negative_length = none }
profile_at Kind.bool = record nothing { as_bool = true }
profile_at Kind.int = record nothing { as_int = true }
profile_at Kind.float = record nothing { as_float = true }
profile_at Kind.string = record nothing { as_string = true }
profile_at Kind.bytes = record nothing { as_bytes = true }
profile_at Kind.link = record nothing { as_link = true }

abbrev pub profile : {C : Type 0} → Methods C → Profile
profile m = record {
  as_bool = succeeds m.as_bool;
  as_int = succeeds m.as_int;
  as_float = succeeds m.as_float;
  as_string = succeeds m.as_string;
  as_bytes = succeeds m.as_bytes;
  as_link = succeeds m.as_link;
  map_iterator = is_set m.map_iterator;
  list_iterator = is_set m.list_iterator;
  negative_length = negative m.length;
}

module _ {C : Type 0} where
  -- The package mixins answers each call with the wrong-kind error.
  pub record Refuses (mx : Mixin C) : Type 0 where
    pub string_lookup : (s : Bytes) → mx.lookup_by_string s ≡ err wrong_kind
    pub node_lookup : (v : Option (Node C)) → mx.lookup_by_node v ≡ err wrong_kind
    pub index_lookup : (i : ℤ) → mx.lookup_by_index i ≡ err wrong_kind
    pub segment_lookup : (s : PathSegment) → mx.lookup_by_segment s ≡ err wrong_kind
    pub bool_refused : mx.as_bool ≡ err wrong_kind
    pub int_refused : mx.as_int ≡ err wrong_kind
    pub float_refused : mx.as_float ≡ err wrong_kind
    pub string_refused : mx.as_string ≡ err wrong_kind
    pub bytes_refused : mx.as_bytes ≡ err wrong_kind
    pub link_refused : mx.as_link ≡ err wrong_kind

  module _ (mixins : Mixins C) where
    -- The methods of a node of this package, by its Go type.
    unfoldable pub methods_of : Typed C → Methods C
    unfolding bytes_methods int_methods link_methods string_methods pb_link_methods
        pb_link_repr_methods pb_node_methods pb_node_repr_methods pb_links_methods
        pb_links_repr_methods
    methods_of (Typed.bytes x) = bytes_methods mixins x
    methods_of (Typed.int x) = int_methods mixins x
    methods_of (Typed.string x) = string_methods mixins x
    methods_of (Typed.link x) = link_methods mixins x
    methods_of (Typed.pb_link n) = pb_link_methods mixins n
    methods_of (Typed.pb_links n) = pb_links_methods mixins n
    methods_of (Typed.pb_node n) = pb_node_methods mixins n
    methods_of (Typed.pb_link_repr n) = pb_link_repr_methods mixins n
    methods_of (Typed.pb_links_repr n) = pb_links_repr_methods mixins n
    methods_of (Typed.pb_node_repr n) = pb_node_repr_methods mixins n

    -- Where the mixins refuse, the kind that a node of this package states decides which of its
    -- methods give something: an accessor of a scalar succeeds at its own kind only, an iterator is
    -- there at its own kind only, and Length is -1 at the scalars and not negative at the others.
    pub profile-methods_of :
        (refuses : (k : Kind) → Refuses (mixins k)) (t : Typed C)
        → profile (methods_of t) ≡ profile_at (methods_of t).kind
    unfolding methods_of
    profile-methods_of refuses (Typed.bytes n) =
        let r = refuses Kind.bytes in
        rw (r.bool_refused, r.int_refused, r.float_refused, r.string_refused, r.link_refused) refl
    profile-methods_of refuses (Typed.int n) =
        let r = refuses Kind.int in
        rw (r.bool_refused, r.float_refused, r.string_refused, r.bytes_refused, r.link_refused) refl
    profile-methods_of refuses (Typed.string n) =
        let r = refuses Kind.string in
        rw (r.bool_refused, r.int_refused, r.float_refused, r.bytes_refused, r.link_refused) refl
    profile-methods_of refuses (Typed.link n) =
        let r = refuses Kind.link in
        rw (r.bool_refused, r.int_refused, r.float_refused, r.string_refused, r.bytes_refused) refl
    profile-methods_of refuses (Typed.pb_link n) =
        let r = refuses Kind.map in
        rw
          (
            r.bool_refused, r.int_refused, r.float_refused, r.string_refused, r.bytes_refused,
            r.link_refused,
          )
          refl
    profile-methods_of refuses (Typed.pb_links n) =
        let r = refuses Kind.list in
        rw
          (
            r.bool_refused, r.int_refused, r.float_refused, r.string_refused, r.bytes_refused,
            r.link_refused,
          )
          refl
    profile-methods_of refuses (Typed.pb_node n) =
        let r = refuses Kind.map in
        rw
          (
            r.bool_refused, r.int_refused, r.float_refused, r.string_refused, r.bytes_refused,
            r.link_refused,
          )
          refl
    profile-methods_of refuses (Typed.pb_link_repr n) =
        let r = refuses Kind.map in
        rw
          (
            r.bool_refused, r.int_refused, r.float_refused, r.string_refused, r.bytes_refused,
            r.link_refused,
          )
          refl
    profile-methods_of refuses (Typed.pb_links_repr n) =
        let r = refuses Kind.list in
        rw
          (
            r.bool_refused, r.int_refused, r.float_refused, r.string_refused, r.bytes_refused,
            r.link_refused,
          )
          refl
    profile-methods_of refuses (Typed.pb_node_repr n) =
        let r = refuses Kind.map in
        rw
          (
            r.bool_refused, r.int_refused, r.float_refused, r.string_refused, r.bytes_refused,
            r.link_refused,
          )
          refl
