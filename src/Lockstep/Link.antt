-- ===== src/Lockstep/Link.antt =====
-- AssignNode of `_PBLink__ReprAssembler` in lockstep with that of `_PBLink__Assembler`.
use Prim.Native.Nat.{bit_and}
use go_codec_dagpb.Common.{
  ◌≡◌, refl, ℤ, Bytes, Bool, true, false, Option, none, some, ◌==◌, if◌then◌else◌, ◌⊎◌, inl, inr,
}
use go_codec_dagpb.Outcome.{Outcome, ok, err, missing_field, ◌>>=◌, ◌>>◌}
use go_codec_dagpb.Outcome.Simulates.{
  Simulates-self, Simulates, both, same_error, panics, Simulates-bind, Simulates-if,
}
use go_codec_dagpb.Schema.{Maybe, PbLink, Field, Link as IpldLink, nil, hash_key}
use go_codec_dagpb.Node.{Node, Typed, Entries}
use go_codec_dagpb.Node.Access.{
  as_link, map_iterator, link_entries_repr, node_entries, node_entries_repr,
}
use go_codec_dagpb.Assembler.Scalar.{
  store, null_at, assign_null, assign_link, assign_link_node, assign_string_node, assign_int_node,
}
use go_codec_dagpb.Assembler.Link
use go_codec_dagpb.Assembler.Link.{LinkAssembler, Child, child_of, child_at, begin_check}
use go_codec_dagpb.Assembler.LinkRepr
use go_codec_dagpb.Lockstep.LinkSteps.{
  carry_on-Lockstep, assemble_key-Lockstep, assign_key_node-Lockstep, assemble_value-Simulates,
}
pub use go_codec_dagpb.Lockstep.LinkSteps.{Shows, shows, Lockstep}

module _ {C : Type 0} where
  -- What an operation of a child assembler does, but for the value that it may store, does not depend
  -- on the value that was there; where it stores none, it leaves that value.
  abbrev pub IsBlind : (Field (IpldLink C) → Outcome (Field (IpldLink C))) → Type 0
  IsBlind op =
      (m : Maybe) (v v' : IpldLink C)
      → Simulates
          (λ c c'.
            (Link.is_value c.m ≡ true)
            ⊎ ((Link.is_value c.m ≡ false) × (c.v ≡ v) × (c'.v ≡ v') × (c'.m ≡ c.m)))
          (op (record { m = m; v = v })) (op (record { m = m; v = v' }))

  pub null_IsBlind : IsBlind assign_null
  unfolding assign_null null_at Link.is_value
  null_IsBlind Maybe.allow_null v v' = both (inr (refl, refl, refl, refl))
  null_IsBlind Maybe.absent v v' = same_error
  null_IsBlind _ v v' = panics

  pub link_IsBlind : (l : IpldLink C) → IsBlind (assign_link l)
  unfolding assign_link store Link.is_value
  link_IsBlind l Maybe.value v v' = panics
  link_IsBlind l Maybe.null v v' = panics
  link_IsBlind l _ v v' = both (inl refl)

  pub node_IsBlind : (n : Node C) → IsBlind (assign_link_node n)
  unfolding assign_link_node assign_link as_link
  node_IsBlind Node.null m v v' = null_IsBlind m v v'
  node_IsBlind (Node.link l) m v v' = link_IsBlind l m v v'
  node_IsBlind (Node.typed (Typed.link l)) m v v' = link_IsBlind l m v v'
  node_IsBlind _ m v v' = same_error

  pub on_hash-Lockstep :
      (op : Field (IpldLink C) → Outcome (Field (IpldLink C))) (a b : LinkAssembler C)
      → IsBlind op
      → Shows a b
      → Lockstep (Link.on_hash op a) (Link.on_hash op b)
  unfolding Link.on_hash Link.on_target Link.is_value
  on_hash-Lockstep op a _ blind (shows _ w h) = go a.w a.hash_w w h
    where
      nils :
          (t : Option (PbLink C)) (x w : Bool)
          → (x ≡ true → w ≡ true)
          → let a' : LinkAssembler C = record a { w = t; hash_w = x } in
            Lockstep (Link.on_target op a' none) (Link.on_target op (record a' { hash_w = w }) none)
      nils t x w h =
          Simulates-bind (Simulates-self (op (record { m = a.cm; v = nil })))
            λ c c' e. rw e (Simulates-if (Link.is_value c'.m) panics (both (shows _ w h)))

      stored :
          (l : PbLink C) (x w : Bool)
          → (x ≡ true → w ≡ true)
          → let a' : LinkAssembler C = record a { w = some l; hash_w = x } in
            Lockstep
              (Link.on_target op a' (some l))
              (Link.on_target op (record a' { hash_w = w }) (some l))
      stored l x w h =
          Simulates-bind (Simulates-self (op (record { m = a.cm; v = l.hash })))
            λ c c' e. rw e (both (shows _ w h))

      kept :
          (l : PbLink C)
          → let a' : LinkAssembler C = record a { w = some l; hash_w = false } in
            Lockstep
              (Link.on_target op a' none)
              (Link.on_target op (record a' { hash_w = true }) (some l))
      kept l = Simulates-bind (blind a.cm nil l.hash) λ c c' o. elim o [
        | inl e ↦ rw e panics
        | inr (e, _, same, same_m) ↦ rw (e, same, same_m) (both (shows _ true λ e. refl))
      ]

      go :
          (t : Option (PbLink C)) (x w : Bool) (h : x ≡ true → w ≡ true)
          → let a' : LinkAssembler C = record a { w = t; hash_w = x } in
            Lockstep
              (Link.on_target op a' (if x then t else none))
              (Link.on_target op (record a' { hash_w = w }) (if w then t else none))
      go t true false h = let e = h refl in absurd (cc)
      go t false false h = nils t false false h
      go none false true h = nils none false true h
      go (some l) false true h = kept l
      go none true true h = nils none true true h
      go (some l) true true h = stored l true true h

  pub on_name-Lockstep :
      (op : Field Bytes → Outcome (Field Bytes)) (a b : LinkAssembler C)
      → Shows a b
      → Lockstep (Link.on_name op a) (Link.on_name op b)
  unfolding Link.on_name
  on_name-Lockstep op a _ (shows _ w h) = Simulates-bind (Simulates-self (Link.deref a.w)) λ l l' e.
      rw e (Simulates-bind (Simulates-self (op l'.name)) λ c c' e'. rw e' (both (shows _ w h)))

  pub on_tsize-Lockstep :
      (op : Field ℤ → Outcome (Field ℤ)) (a b : LinkAssembler C)
      → Shows a b
      → Lockstep (Link.on_tsize op a) (Link.on_tsize op b)
  unfolding Link.on_tsize
  on_tsize-Lockstep op a _ (shows _ w h) =
      Simulates-bind (Simulates-self (Link.deref a.w)) λ l l' e.
        rw e (Simulates-bind (Simulates-self (op l'.tsize)) λ c c' e'. rw e' (both (shows _ w h)))

  -- AssignNode of the child assembler of `c`, under the two assemblers.
  assign_child-Lockstep :
      (c : Child) (v : Node C) (a b : LinkAssembler C)
      → Shows a b
      → Lockstep (Link.assign_child_node c v a) (Link.assign_child_node c v b)
  unfolding Link.assign_child_node
  assign_child-Lockstep Child.hash v a b h =
      on_hash-Lockstep (assign_link_node v) a b (node_IsBlind v) h
  assign_child-Lockstep Child.name v a b h = on_name-Lockstep (assign_string_node v) a b h
  assign_child-Lockstep Child.tsize v a b h = on_tsize-Lockstep (assign_int_node v) a b h

  pub finish-Lockstep :
      (a b : LinkAssembler C) → Shows a b → Lockstep (Link.finish a) (LinkRepr.finish b)
  unfolding Link.finish LinkRepr.finish
  finish-Lockstep a _ (shows _ w h) =
      Simulates-bind (carry_on-Lockstep a.state a _ (shows _ w h)) λ a' b' r. finished a' b' r
    where
      finished :
          (a b : LinkAssembler C)
          → Shows a b
          → Lockstep
              (if bit_and a.s 1 == 0 then err (missing_field hash_key) else Link.finished a)
              (if bit_and b.s 1 == 0 then err (missing_field hash_key) else Link.finished b)
      finished a _ (shows _ w h) = Simulates-if _ same_error (both (shows _ w h))

  pub assign_entries-Lockstep :
      (es : Entries C) (a b : LinkAssembler C)
      → Shows a b
      → Lockstep (Link.assign_entries es a) (LinkRepr.assign_entries es b)
  unfolding Link.assign_entries LinkRepr.assign_entries
  assign_entries-Lockstep Entries.end a b h = both h
  assign_entries-Lockstep (Entries.entry_fails e) a b h = same_error
  assign_entries-Lockstep (Entries.entry k v es) a b h =
      Simulates-bind (assemble_key-Lockstep a b h) λ a₁ b₁ h₁.
        Simulates-bind (assign_key_node-Lockstep k a₁ b₁ h₁) λ a₂ b₂ h₂.
          Simulates-bind (assemble_value-Simulates a₂ b₂ h₂) λ p q (e, h₃). rw e (
            Simulates-bind (assign_child-Lockstep q.0 v p.1 q.1 h₃)
              λ a₄ b₄ h₄. assign_entries-Lockstep es a₄ b₄ h₄)

  filled :
      (it : Outcome (Entries C)) (a b : LinkAssembler C)
      → Shows a b
      → Lockstep
          (do es ← it; a' ← Link.assign_entries es a; Link.finish a')
          (do es ← it; b' ← LinkRepr.assign_entries es b; LinkRepr.finish b')
  filled it a b h =
      Simulates-bind (Simulates-self it)
        λ es es' e. rw e (Simulates-bind (assign_entries-Lockstep es' a b h) finish-Lockstep)

  copied :
      (l : PbLink C) (a b : LinkAssembler C)
      → Shows a b
      → Lockstep
          (do begin_check a.m; ok (record a { w = some l; m = Maybe.value }))
          (do begin_check b.m; ok (record b { w = some l; m = Maybe.value }))
  copied l a _ (shows _ w h) =
      Simulates-bind (Simulates-self (begin_check a.m)) λ x y e. both (shows _ w h)

  pub null_at-Lockstep :
      (m : Maybe) (a b : LinkAssembler C)
      → Shows a b
      → Lockstep (Link.null_at m a) (LinkRepr.null_at m b)
  unfolding Link.null_at LinkRepr.null_at
  null_at-Lockstep Maybe.allow_null a _ (shows _ w h) = both (shows _ w h)
  null_at-Lockstep Maybe.absent a b h = same_error
  null_at-Lockstep _ a b h = panics

  pub assign_node-Lockstep :
      (v : Node C) (a b : LinkAssembler C)
      → Shows a b
      → Lockstep (Link.assign_node v a) (LinkRepr.assign_node v b)
  unfolding Link.assign_node LinkRepr.assign_node Link.assign_null LinkRepr.assign_null map_iterator
  assign_node-Lockstep Node.null a _ (shows _ w h) = null_at-Lockstep a.m a _ (shows _ w h)
  assign_node-Lockstep (Node.typed (Typed.pb_link l)) a b h = copied l a b h
  assign_node-Lockstep (Node.map es) a b h = filled (ok es) a b h
  assign_node-Lockstep (Node.typed (Typed.pb_link_repr n)) a b h =
      filled (link_entries_repr n) a b h
  assign_node-Lockstep (Node.typed (Typed.pb_node n)) a b h = filled (node_entries n) a b h
  assign_node-Lockstep (Node.typed (Typed.pb_node_repr n)) a b h =
      filled (node_entries_repr n) a b h
  assign_node-Lockstep _ a b h = same_error
