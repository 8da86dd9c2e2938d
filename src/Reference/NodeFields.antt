-- ===== src/Reference/NodeFields.antt =====
-- The PBLinks and the PBNode of any node.
use go_codec_dagpb.Common.{Bytes, Bool, Option, none, some, List, [], ◌∷◌, if◌then◌else◌}
use go_codec_dagpb.Outcome.{
  Outcome, ok, err, invalid_key, repeated_key, missing_field, wrong_kind, ◌>>=◌,
}
use go_codec_dagpb.Schema.{PbLink, PbNode, links_key}
use go_codec_dagpb.Message.{field_of}
use go_codec_dagpb.Node.{Node, Typed, Items, Entries}
use go_codec_dagpb.Node.Access.{as_bytes, as_string, map_iterator, list_iterator}
use go_codec_dagpb.Assembler.Root.{Child, child_of, child_key}
use go_codec_dagpb.Reference.LinkFields.{is_set, link_from}

module _ {C : Type 0} where
  -- The links of a list.
  abbrev pub links_of : Items C → Outcome (List (PbLink C))
  links_of Items.last = ok []
  links_of (Items.item_fails e) = err e
  links_of (Items.item v xs) = do l ← link_from v; ls ← links_of xs; ok (l ∷ ls)

  abbrev from_items : Option (Outcome (Items C)) → Outcome (List (PbLink C))
  from_items none = err wrong_kind
  from_items (some it) = do xs ← it; links_of xs

  -- A PBLinks itself, or what a list holds.
  unfoldable pub links_from : Node C → Outcome (List (PbLink C))
  unfolding link_from
  links_from (Node.typed (Typed.pb_links n)) = ok n.x
  links_from v = from_items (list_iterator v)

pub record Fields (C : Type 0) : Type 0 where
  pub links : Option (List (PbLink C))
  pub bytes : Option Bytes

module _ {C : Type 0} where
  abbrev pub no_fields : Fields C
  no_fields = record { links = none; bytes = none }

  abbrev pub has : Child → Fields C → Bool
  has Child.links fs = is_set fs.links
  has Child.bytes fs = is_set fs.bytes

  -- A value for a field that is not set.
  abbrev pub set : Child → Node C → Fields C → Outcome (Fields C)
  set Child.links v fs = do ls ← links_from v; ok (record fs { links = some ls })
  set Child.bytes v fs = do b ← as_bytes v; ok (record fs { bytes = some b })

  abbrev pub put_at : Option Child → Bytes → Node C → Fields C → Outcome (Fields C)
  put_at none k v fs = err (invalid_key k)
  put_at (some c) k v fs = if has c fs then err (repeated_key (child_key c)) else set c v fs

  -- An entry of a map.
  abbrev pub put : Bytes → Node C → Fields C → Outcome (Fields C)
  put k v fs = put_at (child_of k) k v fs

  abbrev pub put_all : Entries C → Fields C → Outcome (Fields C)
  put_all Entries.end fs = ok fs
  put_all (Entries.entry_fails e) fs = err e
  put_all (Entries.entry k v es) fs = do key ← as_string k; fs' ← put key v fs; put_all es fs'

  -- Links is the field that has to be there.
  abbrev complete_with : Option (List (PbLink C)) → Option Bytes → Outcome (PbNode C)
  complete_with none d = err (missing_field links_key)
  complete_with (some ls) d = ok (record { links = record { x = ls }; bytes = field_of [] d })

  abbrev pub complete : Fields C → Outcome (PbNode C)
  complete fs = complete_with fs.links fs.bytes

  abbrev pub from_entries : Option (Outcome (Entries C)) → Outcome (PbNode C)
  from_entries none = err wrong_kind
  from_entries (some it) = do es ← it; fs ← put_all es no_fields; complete fs

  -- A PBNode itself, or what a map holds.
  unfoldable pub node_from : Node C → Outcome (PbNode C)
  unfolding links_from
  node_from (Node.typed (Typed.pb_node n)) = ok n
  node_from v = from_entries (map_iterator v)
