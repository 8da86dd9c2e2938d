-- ===== src/Reference/LinkFields.antt =====
-- The PBLink of any node.
use go_codec_dagpb.Common.{ℤ, pos, Bytes, Bool, true, false, Option, none, some, [], if◌then◌else◌}
use go_codec_dagpb.Outcome.{
  Outcome, ok, err, invalid_key, repeated_key, missing_field, wrong_kind, ◌>>=◌,
}
use go_codec_dagpb.Schema.{Link as IpldLink, PbLink, hash_key}
use go_codec_dagpb.Message.{field_of}
use go_codec_dagpb.Node.{Node, Typed, Entries}
use go_codec_dagpb.Node.Access.{as_link, as_string, as_int, map_iterator}
use go_codec_dagpb.Assembler.Link.{Child, child_of, child_key}

pub record Fields (C : Type 0) : Type 0 where
  pub hash : Option (IpldLink C)
  pub name : Option Bytes
  pub tsize : Option ℤ

abbrev pub is_set {ℓ} : {A : Type ℓ} → Option A → Bool
is_set none = false
is_set (some a) = true

module _ {C : Type 0} where
  abbrev pub no_fields : Fields C
  no_fields = record { hash = none; name = none; tsize = none }

  abbrev pub has : Child → Fields C → Bool
  has Child.hash fs = is_set fs.hash
  has Child.name fs = is_set fs.name
  has Child.tsize fs = is_set fs.tsize

  -- A value for a field that is not set.
  abbrev pub set : Child → Node C → Fields C → Outcome (Fields C)
  set Child.hash v fs = do l ← as_link v; ok (record fs { hash = some l })
  set Child.name v fs = do n ← as_string v; ok (record fs { name = some n })
  set Child.tsize v fs = do i ← as_int v; ok (record fs { tsize = some i })

  abbrev pub put_at : Option Child → Bytes → Node C → Fields C → Outcome (Fields C)
  put_at none k v fs = err (invalid_key k)
  put_at (some c) k v fs = if has c fs then err (repeated_key (child_key c)) else set c v fs

  -- An entry of a map.
  abbrev pub put : Bytes → Node C → Fields C → Outcome (Fields C)
  put k v fs = put_at (child_of k) k v fs

  abbrev pub put_all : Entries C → Fields C → Outcome (Fields C)
  put_all Entries.end fs = ok fs
  put_all (Entries.entry_fails e) fs = err e
  put_all (Entries.entry k v es) fs = do key ← as_string k; fs' ← put key v fs; put_all es fs'

  abbrev pub link_with : IpldLink C → Fields C → PbLink C
  link_with l fs = record {
    hash = l;
    name = field_of [] fs.name;
    tsize = field_of (pos 0) fs.tsize;
  }

  -- Hash is the field that has to be there.
  abbrev complete_with : Option (IpldLink C) → Fields C → Outcome (PbLink C)
  complete_with none fs = err (missing_field hash_key)
  complete_with (some l) fs = ok (link_with l fs)

  abbrev pub complete : Fields C → Outcome (PbLink C)
  complete fs = complete_with fs.hash fs

  abbrev pub from_entries : Option (Outcome (Entries C)) → Outcome (PbLink C)
  from_entries none = err wrong_kind
  from_entries (some it) = do es ← it; fs ← put_all es no_fields; complete fs

  -- A PBLink itself, or what a map holds.
  unfoldable pub link_from : Node C → Outcome (PbLink C)
  link_from (Node.typed (Typed.pb_link l)) = ok l
  link_from v = from_entries (map_iterator v)
