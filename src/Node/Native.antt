-- ===== src/Node/Native.antt =====
-- ipldsch_satisfaction.go: the methods of PBLinks that give links instead of nodes.
use go_codec_dagpb.Common.{
  ℕ, ◌+◌, ℤ, ◌≡◌, refl, Bool, Option, none, some, length, leb, if◌then◌else◌,
}
use go_codec_dagpb.Outcome.{Outcome, ok, err, no_such_index, ◌>>=◌}
use go_codec_dagpb.Schema.{PbLink, PbLinks, Field, Maybe}
use go_codec_dagpb.Node.{Node, Typed}
use go_codec_dagpb.Node.LinksView.{index, index_ℤ, past_end, lookup_by_index}

module _ {C : Type 0} where
  -- (*_PBLinks).Lookup, where `none` is nil.
  unfoldable pub lookup : PbLinks C → ℤ → Outcome (Option (PbLink C))
  unfolding index_ℤ
  lookup n idx = if past_end (length n.x) idx then ok none else do v ← index_ℤ n.x idx; ok (some v)

  -- (*_PBLinks).LookupMaybe
  unfoldable pub lookup_maybe : PbLinks C → ℤ → Outcome (Option (Field (PbLink C)))
  unfolding index_ℤ
  lookup_maybe n idx =
      if past_end (length n.x) idx
      then ok none
      else do v ← index_ℤ n.x idx; ok (some (record { m = Maybe.value; v = v }))

  -- (*PBLinks__Itr).Next: `none` at the end, or the index, the link and the next index.
  unfoldable pub itr_next : PbLinks C → ℕ → Outcome (Option (ℕ × PbLink C × ℕ))
  unfolding index
  itr_next n idx =
      if leb (length n.x) idx then ok none else do v ← index n.x idx; ok (some (idx, v, idx + 1))

  abbrev pub node_or_missing : ℤ → Option (PbLink C) → Outcome (Node C)
  node_or_missing idx none = err (no_such_index idx)
  node_or_missing idx (some v) = ok (Node.typed (Typed.pb_link v))

  abbrev pub maybe_of : Option (PbLink C) → Option (Field (PbLink C))
  maybe_of none = none
  maybe_of (some v) = some (record { m = Maybe.value; v = v })

  bind_if :
      (b : Bool) (m : Outcome (PbLink C)) (idx : ℤ)
      → ((if b then err (no_such_index idx) else do v ← m; ok (Node.typed (Typed.pb_link v)))
          ≡ ((if b then ok none else do v ← m; ok (some v)) >>= node_or_missing idx))
        × ((if b then ok none else do v ← m; ok (some (record { m = Maybe.value; v = v })))
            ≡ ((if b then ok none else do v ← m; ok (some v)) >>= λ o. ok (maybe_of o)))
  bind_if Bool.true m idx = (refl, refl)
  bind_if Bool.false (ok v) idx = (refl, refl)
  bind_if Bool.false (err e) idx = (refl, refl)
  bind_if Bool.false (Outcome.panic x) idx = (refl, refl)
  bind_if Bool.false Outcome.stuck idx = (refl, refl)

  -- At every index LookupByIndex gives the link that Lookup gives, as a node, and its error where
  -- Lookup gives nil; LookupMaybe gives the same link in a Maybe, and nil with Lookup. They panic
  -- together.
  pub lookups-agree :
      (n : PbLinks C) (idx : ℤ)
      → (lookup_by_index n idx ≡ (lookup n idx >>= node_or_missing idx))
        × (lookup_maybe n idx ≡ (lookup n idx >>= λ o. ok (maybe_of o)))
  unfolding lookup_by_index lookup lookup_maybe
  lookups-agree n idx = bind_if (past_end (length n.x) idx) (index_ℤ n.x idx) idx
