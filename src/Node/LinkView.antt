-- ===== src/Node/LinkView.antt =====
-- ipldsch_satisfaction.go: the typed view and the representation view of a PBLink.
use go_codec_dagpb.Common.{
  ℕ, zero, suc, ◌+◌, ◌-◌, Bytes, Bool, true, false, same, leb, ◌==◌, if◌then◌else◌,
}
use go_codec_dagpb.Outcome.{
  Outcome, ok, err, panic, unreachable, not_exists, no_such_field, iterator_overread, stuck, ◌>>=◌,
}
use go_codec_dagpb.Schema.{PbLink, Maybe, Field, hash_key, name_key, tsize_key}
use go_codec_dagpb.Node.{Node, Typed, Entries}

-- `m == schema.Maybe_Absent`
unfoldable pub is_absent_field {ℓ} : {A : Type ℓ} → Field A → Bool
is_absent_field fd = elim fd.m [ Maybe.absent ↦ true | _ ↦ false ]

-- (*_PBLink__MapItr).Done
unfoldable pub done : ℕ → Bool
done idx = leb 3 idx

-- (*_PBLink__ReprMapItr).Done
unfoldable pub repr_done : ℕ → ℕ → Bool
repr_done idx end = leb end idx

module _ {C : Type 0} where
  abbrev pub key_node : Bytes → Node C
  key_node k = Node.typed (Typed.string k)

  -- (PBLink).LookupByString
  unfoldable pub lookup : PbLink C → Bytes → Outcome (Node C)
  unfolding is_absent_field
  lookup n key =
      if same key hash_key
      then ok (Node.typed (Typed.link n.hash))
      else if same key name_key
      then (if is_absent_field n.name
          then ok Node.absent
          else ok (Node.typed (Typed.string n.name.v)))
      else if same key tsize_key
      then (if is_absent_field n.tsize
          then ok Node.absent
          else ok (Node.typed (Typed.int n.tsize.v)))
      else err (no_such_field key)

  -- (*_PBLink__Repr).LookupByString
  unfoldable pub lookup_repr : PbLink C → Bytes → Outcome (Node C)
  unfolding is_absent_field
  lookup_repr n key =
      if same key hash_key
      then ok (Node.typed (Typed.link n.hash))
      else if same key name_key
      then (if is_absent_field n.name
          then err (not_exists key)
          else ok (Node.typed (Typed.string n.name.v)))
      else if same key tsize_key
      then (if is_absent_field n.tsize
          then err (not_exists key)
          else ok (Node.typed (Typed.int n.tsize.v)))
      else err (no_such_field key)

  -- (*_PBLink__MapItr).Next: the key, the value and the next index.
  unfoldable pub next : PbLink C → ℕ → Outcome (Node C × Node C × ℕ)
  unfolding is_absent_field
  next n idx =
      if leb 3 idx
      then err iterator_overread
      else if idx == 0
      then ok (key_node hash_key, Node.typed (Typed.link n.hash), idx + 1)
      else if idx == 1
      then (if is_absent_field n.name
          then ok (key_node name_key, Node.absent, idx + 1)
          else ok (key_node name_key, Node.typed (Typed.string n.name.v), idx + 1))
      else if idx == 2
      then (if is_absent_field n.tsize
          then ok (key_node tsize_key, Node.absent, idx + 1)
          else ok (key_node tsize_key, Node.typed (Typed.int n.tsize.v), idx + 1))
      else panic unreachable

  -- (*_PBLink__Repr).MapIterator: the end of the iteration.
  unfoldable pub repr_end : PbLink C → ℕ
  unfolding is_absent_field
  repr_end n = if is_absent_field n.tsize then (if is_absent_field n.name then 1 else 2) else 3

  -- (*_PBLink__ReprMapItr).Next. The two `goto advance` go on at the next case of the switch.
  repr_at_tsize : PbLink C → Outcome (Node C × Node C × ℕ)
  unfolding is_absent_field
  repr_at_tsize n =
      if is_absent_field n.tsize
      then err iterator_overread
      else ok (key_node tsize_key, Node.typed (Typed.int n.tsize.v), 3)

  repr_at_name : PbLink C → Outcome (Node C × Node C × ℕ)
  unfolding is_absent_field repr_at_tsize
  repr_at_name n =
      if is_absent_field n.name
      then repr_at_tsize n
      else ok (key_node name_key, Node.typed (Typed.string n.name.v), 2)

  unfoldable pub repr_next : PbLink C → ℕ → Outcome (Node C × Node C × ℕ)
  unfolding repr_at_name repr_at_tsize
  repr_next n idx =
      if leb 3 idx
      then err iterator_overread
      else if idx == 0
      then ok (key_node hash_key, Node.typed (Typed.link n.hash), 1)
      else if idx == 1
      then repr_at_name n
      else if idx == 2
      then repr_at_tsize n
      else panic unreachable

  -- (*_PBLink__Repr).Length
  unfoldable pub repr_length : PbLink C → ℕ
  unfolding is_absent_field
  repr_length n =
      let l : ℕ = if is_absent_field n.name then 2 else 3 in
      if is_absent_field n.tsize then l - 1 else l

-- `for !itr.Done() { k, v, err := itr.Next(); … }` over an iterator of this package: what it yields.
-- A panic of Next, and an iterator that is not done when the fuel is, is that of the whole loop.
module _ {C : Type 0} (next : ℕ → Outcome (Node C × Node C × ℕ)) (done : ℕ → Bool) where
  unfoldable pub run_iterator : ℕ → ℕ → Outcome (Entries C)
  run_iterator zero idx = stuck
  run_iterator (suc fuel) idx = elim (done idx) [
    | true ↦ ok Entries.end
    | false ↦ elim (next idx) [
      | ok (k, v, j) ↦ do es ← run_iterator fuel j; ok (Entries.entry k v es)
      | err e ↦ ok (Entries.entry_fails e)
      | panic p ↦ panic p
      | stuck ↦ stuck
    ]
  ]
