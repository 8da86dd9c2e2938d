-- ===== src/Node/LinksView.antt =====
-- ipldsch_satisfaction.go: the views of a PBLinks.
use go_codec_dagpb.Common.{
  ℕ, zero, suc, ◌+◌, ℤ, pos, negsuc, Bool, true, false, List, [], ◌∷◌, length, leb, if◌then◌else◌,
}
use go_codec_dagpb.Outcome.{
  Outcome, ok, err, panic, out_of_range, no_such_index, wrong_type, iterator_overread, stuck, ◌>>=◌,
}
use go_codec_dagpb.Schema.{PbLinks}
use go_codec_dagpb.Node.{Node, Typed, Items}

-- `xs[i]`
unfoldable pub index {ℓ} : {A : Type ℓ} → List A → ℕ → Outcome A
index [] i = panic out_of_range
index (x ∷ xs) zero = ok x
index (x ∷ xs) (suc i) = index xs i

-- `xs[i]` where i is an int64
unfoldable pub index_ℤ {ℓ} : {A : Type ℓ} → List A → ℤ → Outcome A
unfolding index
index_ℤ xs (pos i) = index xs i
index_ℤ xs (negsuc i) = panic out_of_range

-- `n.Length() <= idx`
abbrev pub past_end : ℕ → ℤ → Bool
past_end len (pos i) = leb len i
past_end len (negsuc i) = false

module _ {C : Type 0} where
  -- (PBLinks).LookupByIndex
  unfoldable pub lookup_by_index : PbLinks C → ℤ → Outcome (Node C)
  unfolding index_ℤ
  lookup_by_index n idx =
      if past_end (length n.x) idx
      then err (no_such_index idx)
      else do v ← index_ℤ n.x idx; ok (Node.typed (Typed.pb_link v))

  -- (*_PBLinks__ListItr).Next: the index, the value and the next index.
  unfoldable pub next : PbLinks C → ℕ → Outcome (ℕ × Node C × ℕ)
  unfolding index
  next n idx =
      if leb (length n.x) idx
      then err iterator_overread
      else do x ← index n.x idx; ok (idx, Node.typed (Typed.pb_link x), idx + 1)

  -- `if v == ipld.Null { return v }; v.(PBLink).Representation()`
  unfoldable pub row_representation : Node C → Outcome (Node C)
  row_representation Node.null = ok Node.null
  row_representation (Node.typed (Typed.pb_link l)) = ok (Node.typed (Typed.pb_link_repr l))
  row_representation _ = panic wrong_type

  -- (*_PBLinks__ReprListItr).Next
  unfoldable pub repr_next : PbLinks C → ℕ → Outcome (ℕ × Node C × ℕ)
  unfolding next row_representation
  repr_next n idx = do (i, v, j) ← next n idx; v' ← row_representation v; ok (i, v', j)

  -- (*_PBLinks__ListItr).Done
  unfoldable pub done : PbLinks C → ℕ → Bool
  done n idx = leb (length n.x) idx

-- `for !itr.Done() { _, v, err := itr.Next(); … }`: what the iterator yields. A panic of Next, and an
-- iterator that is not done when the fuel is, is that of the whole loop.
module _ {C : Type 0} (next : ℕ → Outcome (ℕ × Node C × ℕ)) (done : ℕ → Bool) where
  unfoldable pub run_iterator : ℕ → ℕ → Outcome (Items C)
  run_iterator zero idx = stuck
  run_iterator (suc fuel) idx = elim (done idx) [
    | true ↦ ok Items.last
    | false ↦ elim (next idx) [
      | ok (i, v, j) ↦ do xs ← run_iterator fuel j; ok (Items.item v xs)
      | err e ↦ ok (Items.item_fails e)
      | panic p ↦ panic p
      | stuck ↦ stuck
    ]
  ]
