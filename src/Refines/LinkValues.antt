-- ===== src/Refines/LinkValues.antt =====
-- The PBLink assembler under AssignNode follows the description.
use go_codec_dagpb.Common.{
  ℕ, ◌≡◌, refl, ℤ, pos, Bytes, true, false, Option, none, some, [], arith, Bool-cases, inl, inr,
}
use go_codec_dagpb.Outcome.{Outcome, ok, ◌>>=◌, bind_assoc}
use go_codec_dagpb.Outcome.Follows.{Follows, values, errors, Follows-bind}
use go_codec_dagpb.Schema.{Maybe, MaState, Field, Link as IpldLink, nil, PbLink}
use go_codec_dagpb.Node.{Node, Typed, Entries}
use go_codec_dagpb.Node.Ends.{
  Ends, link_entries_repr-Ends, node_entries-Ends, node_entries_repr-Ends,
}
use go_codec_dagpb.Node.Access.{as_link, as_string, as_int, map_iterator}
use go_codec_dagpb.Assembler.Scalar.{assign_link_node, assign_string_node, assign_int_node}
use go_codec_dagpb.Assembler.Link
use go_codec_dagpb.Assembler.Link.{LinkAssembler, Child, child_of, index_of}
use go_codec_dagpb.Reference.LinkFields.{
  Fields, no_fields, has, put_at, put_all, set, complete, link_from,
}
use go_codec_dagpb.Refines.Access.{as_string-Same, as_link-Same, as_int-Same}
use go_codec_dagpb.Refines.LinkSteps.{
  At, rests, holds, resting, holding, open_at, claim_at, assemble_key-At, assign_key-resting,
  assemble_value-claimed, finish-holding, clear,
}
use mathlib.Core.Path.{subst}

abbrev pub stored {ℓ} : {A : Type ℓ} → A → Outcome (Field A)
stored a = ok (record { m = Maybe.value; v = a })

module _ {C : Type 0} where
  -- AssignNode of a scalar whose Maybe is absent.
  link_absent :
      (v : Node C) (x : IpldLink C)
      → assign_link_node v (record { m = Maybe.absent; v = x }) ≡ (as_link v >>= λ l. stored l)
  unfolding assign_link_node
  link_absent (Node.link l) x = refl
  link_absent (Node.typed (Typed.link l)) x = refl
  link_absent _ x = refl

  string_absent :
      (v : Node C) (x : Bytes)
      → assign_string_node v (record { m = Maybe.absent; v = x }) ≡ (as_string v >>= λ n. stored n)
  unfolding assign_string_node
  string_absent (Node.string l) x = refl
  string_absent (Node.typed (Typed.string l)) x = refl
  string_absent _ x = refl

  int_absent :
      (v : Node C) (x : ℤ)
      → assign_int_node v (record { m = Maybe.absent; v = x }) ≡ (as_int v >>= λ i. stored i)
  unfolding assign_int_node
  int_absent (Node.int l) x = refl
  int_absent (Node.typed (Typed.int l)) x = refl
  int_absent _ x = refl

  module _ (m : Maybe) where
    -- The same state, with `s` in another form.
    held :
        (c : Child) (fs : Fields C) (s : ℕ)
        → has c fs ≡ true
        → (holding m c fs).s ≡ s
        → At m fs (record (holding m c fs) { s = s })
    held c fs s h e = subst (λ s. At m fs (record (holding m c fs) { s = s })) e (holds c h)

    assign_child :
        (c : Child) (v : Node C) (fs : Fields C)
        → has c fs ≡ false
        → Follows (λ a fs'. At m fs' a) (Link.assign_child_node c v (open_at m c fs)) (set c v fs)
    unfolding Link.assign_child_node
    assign_child c v fs h = go c fs.hash fs.name fs.tsize h
      where
        go :
            (c : Child) (h : Option (IpldLink C)) (n : Option Bytes) (t : Option ℤ)
            → let fs : Fields C = record { hash = h; name = n; tsize = t } in
              has c fs ≡ false
              → Follows
                  (λ a fs'. At m fs' a)
                  (Link.assign_child_node c v (open_at m c fs))
                  (set c v fs)
        go Child.hash (some x) n t e = absurd (cc)
        go Child.hash none n t e = rw (link_absent v nil) (
            rw bind_assoc (
              Follows-bind (as_link-Same v)
                λ l l' p. values (rw p (held Child.hash _ _ refl (omega arith)))))
        go Child.name h (some x) t e = absurd (cc)
        go Child.name h none t e = rw (string_absent v []) (
            rw bind_assoc (
              Follows-bind (as_string-Same v)
                λ l l' p. values (rw p (held Child.name _ _ refl (omega arith)))))
        go Child.tsize h n (some x) e = absurd (cc)
        go Child.tsize h n none e = rw (int_absent v (pos 0)) (
            rw bind_assoc (
              Follows-bind (as_int-Same v)
                λ l l' p. values (rw p (held Child.tsize _ _ refl (omega arith)))))

    module _ {ℓ κ μ} {A : Type ℓ} {B : Type κ} {Q : A → B → Type μ}
        (k : LinkAssembler C → Outcome A) (k' : Fields C → Outcome B)
        (then : (a : LinkAssembler C) (fs : Fields C) → At m fs a → Follows Q (k a) (k' fs)) where
      -- An entry's value, once its key was read.
      value_follows :
          (o : Option Child) (key : Bytes) (v : Node C) (fs : Fields C)
          → Follows Q
              (do
                a₂ ← claim_at m MaState.expect_value o key fs
                (c, a₃) ← Link.assemble_value a₂
                a₄ ← Link.assign_child_node c v a₃
                k a₄)
              (put_at o key v fs >>= k')
      value_follows none key v fs = errors
      value_follows (some c) key v fs = elim (Bool-cases (has c fs)) [
        | inl e ↦ rw e errors
        | inr e ↦
            rw e (rw (assemble_value-claimed m c fs) (Follows-bind (assign_child c v fs e) then))
      ]

    pub entries_follow :
        (es : Entries C) (fs : Fields C) (a : LinkAssembler C)
        → At m fs a
        → Follows (λ a fs'. At m fs' a) (Link.assign_entries es a) (put_all es fs)
    unfolding Link.assign_entries
    entries_follow Entries.end fs a h = values h
    entries_follow (Entries.entry_fails e) fs a h = errors
    entries_follow (Entries.entry key v es) fs a h =
        let (f, e) = assemble_key-At m fs a h in
        rw e (
          rw bind_assoc (
            Follows-bind (as_string-Same key) λ s s' p. rw p (
              rw (assign_key-resting m s' f fs) (
                value_follows (Link.assign_entries es) (put_all es)
                  (λ a' fs' h'. entries_follow es fs' a' h') (child_of s') s' v fs))))

  -- The assembler holds the finished link `l`.
  pub data IsRow (l : PbLink C) : LinkAssembler C → Type 0 where
    row_of :
        (st : MaState) (s f : ℕ)
        → IsRow l (record {
          w = some l;
          m = Maybe.value;
          state = st;
          s = s;
          f = f;
          cm = Maybe.absent;
          hash_w = false;
        })

  finish-resting :
      (m : Maybe) (f : ℕ) (fs : Fields C)
      → Follows (λ a l. IsRow l a) (Link.finish (resting m f fs)) (complete fs)
  unfolding Link.finish
  finish-resting m f fs = go fs.hash
    where
      go :
          (h : Option (IpldLink C))
          → let fs' : Fields C = record fs { hash = h } in
            Follows (λ a l. IsRow l a) (Link.finish (resting m f fs')) (complete fs')
      go none = rw (clear Child.hash (record fs { hash = none })) errors
      go (some l) = rw (clear Child.hash (record fs { hash = some l })) (values (row_of _ _ _))

  pub finish-At :
      (m : Maybe) (fs : Fields C) (a : LinkAssembler C)
      → At m fs a
      → Follows (λ a l. IsRow l a) (Link.finish a) (complete fs)
  finish-At m fs a (rests f) = finish-resting m f fs
  finish-At m fs a (holds c h) = rw (finish-holding m c fs h) (finish-resting m (index_of c) fs)

  -- A row assembler before anything was assigned, where `f` is left from the row before.
  abbrev pub begun : ℕ → LinkAssembler C
  begun f = resting Maybe.absent f no_fields

  filled :
      (f : ℕ) (es : Entries C)
      → Follows
          (λ a l. IsRow l a)
          (do a ← Link.assign_entries es (begun f); Link.finish a)
          (do fs ← put_all es no_fields; complete fs)
  filled f es =
      Follows-bind (entries_follow Maybe.absent es no_fields (begun f) (rests f))
        λ a fs h. finish-At Maybe.absent fs a h

  -- The same of an iterator of this package, which comes to its end.
  ended :
      (f : ℕ) (it : Outcome (Entries C))
      → Ends it
      → Follows
          (λ a l. IsRow l a)
          (do es ← it; a ← Link.assign_entries es (begun f); Link.finish a)
          (do es ← it; fs ← put_all es no_fields; complete fs)
  ended f it (es, e) = rw e (filled f es)

  -- AssignNode of the PBLink assembler follows the description, for every node.
  pub assign_node-follows :
      (f : ℕ) (v : Node C) → Follows (λ a l. IsRow l a) (Link.assign_node v (begun f)) (link_from v)
  unfolding Link.assign_node link_from map_iterator
  assign_node-follows f (Node.typed (Typed.pb_link l)) = values (row_of _ _ _)
  assign_node-follows f (Node.map es) = filled f es
  assign_node-follows f (Node.typed (Typed.pb_link_repr n)) = ended f _ (link_entries_repr-Ends n)
  assign_node-follows f (Node.typed (Typed.pb_node n)) = ended f _ (node_entries-Ends n)
  assign_node-follows f (Node.typed (Typed.pb_node_repr n)) = ended f _ (node_entries_repr-Ends n)
  assign_node-follows f _ = errors
