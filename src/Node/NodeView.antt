-- ===== src/Node/NodeView.antt =====
-- ipldsch_satisfaction.go: the typed view and the representation view of a PBNode.
use go_codec_dagpb.Common.{ℕ, ◌+◌, ◌-◌, Bytes, Bool, same, leb, ◌==◌, if◌then◌else◌}
use go_codec_dagpb.Outcome.{
  Outcome, ok, err, panic, unreachable, not_exists, no_such_field, iterator_overread,
}
use go_codec_dagpb.Schema.{PbNode, links_key, data_key}
use go_codec_dagpb.Node.{Node, Typed}
use go_codec_dagpb.Node.LinkView.{is_absent_field, key_node}

-- (*_PBNode__MapItr).Done
unfoldable pub done : ℕ → Bool
done idx = leb 2 idx

-- (*_PBNode__ReprMapItr).Done
unfoldable pub repr_done : ℕ → ℕ → Bool
repr_done idx end = leb end idx

module _ {C : Type 0} where
  -- (PBNode).LookupByString
  unfoldable pub lookup : PbNode C → Bytes → Outcome (Node C)
  unfolding is_absent_field
  lookup n key =
      if same key links_key
      then ok (Node.typed (Typed.pb_links n.links))
      else if same key data_key
      then (if is_absent_field n.bytes
          then ok Node.absent
          else ok (Node.typed (Typed.bytes n.bytes.v)))
      else err (no_such_field key)

  -- (*_PBNode__Repr).LookupByString
  unfoldable pub lookup_repr : PbNode C → Bytes → Outcome (Node C)
  unfolding is_absent_field
  lookup_repr n key =
      if same key links_key
      then ok (Node.typed (Typed.pb_links_repr n.links))
      else if same key data_key
      then (if is_absent_field n.bytes
          then err (not_exists key)
          else ok (Node.typed (Typed.bytes n.bytes.v)))
      else err (no_such_field key)

  -- (*_PBNode__MapItr).Next
  unfoldable pub next : PbNode C → ℕ → Outcome (Node C × Node C × ℕ)
  unfolding is_absent_field
  next n idx =
      if leb 2 idx
      then err iterator_overread
      else if idx == 0
      then ok (key_node links_key, Node.typed (Typed.pb_links n.links), idx + 1)
      else if idx == 1
      then (if is_absent_field n.bytes
          then ok (key_node data_key, Node.absent, idx + 1)
          else ok (key_node data_key, Node.typed (Typed.bytes n.bytes.v), idx + 1))
      else panic unreachable

  -- (*_PBNode__Repr).MapIterator: the end of the iteration.
  unfoldable pub repr_end : PbNode C → ℕ
  unfolding is_absent_field
  repr_end n = if is_absent_field n.bytes then 1 else 2

  -- (*_PBNode__ReprMapItr).Next
  unfoldable pub repr_next : PbNode C → ℕ → Outcome (Node C × Node C × ℕ)
  unfolding is_absent_field
  repr_next n idx =
      if leb 2 idx
      then err iterator_overread
      else if idx == 0
      then ok (key_node links_key, Node.typed (Typed.pb_links_repr n.links), 1)
      else if idx == 1
      then (if is_absent_field n.bytes
          then err iterator_overread
          else ok (key_node data_key, Node.typed (Typed.bytes n.bytes.v), 2))
      else panic unreachable

  -- (*_PBNode__Repr).Length
  unfoldable pub repr_length : PbNode C → ℕ
  unfolding is_absent_field
  repr_length n = if is_absent_field n.bytes then 2 - 1 else 2
