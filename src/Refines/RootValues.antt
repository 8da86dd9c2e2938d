-- ===== src/Refines/RootValues.antt =====
-- The PBNode assembler under AssignNode follows the description.
use go_codec_dagpb.Common.{
  ℕ, ◌≡◌, refl, Bytes, false, Option, none, some, List, [], arith, Bool-cases, inl, inr,
}
use go_codec_dagpb.Outcome.{Outcome, ok, ◌>>=◌, bind_assoc}
use go_codec_dagpb.Outcome.Follows.{Follows, values, errors, Follows-bind}
use go_codec_dagpb.Schema.{Maybe, MaState, PbLink, PbNode}
use go_codec_dagpb.Message.{field_of}
use go_codec_dagpb.Node.{Node, Typed, Entries}
use go_codec_dagpb.Node.Ends.{
  Ends, link_entries-Ends, link_entries_repr-Ends, node_entries_repr-Ends,
}
use go_codec_dagpb.Node.Access.{as_bytes, map_iterator}
use go_codec_dagpb.Assembler.Scalar.{assign_bytes_node}
use go_codec_dagpb.Assembler.List as LinkList
use go_codec_dagpb.Assembler.List.{ListAssembler}
use go_codec_dagpb.Assembler.Root
use go_codec_dagpb.Assembler.Root.{RootAssembler, Child, child_of, index_of}
use go_codec_dagpb.Reference.NodeFields.{
  Fields, no_fields, has, set, put_at, put_all, complete, node_from,
}
use go_codec_dagpb.Refines.Access.{as_string-Same, as_bytes-Same}
use go_codec_dagpb.Refines.LinkValues.{stored}
use go_codec_dagpb.Refines.ListValues.{IsList, list_of}
use go_codec_dagpb.Refines.ListValues
use go_codec_dagpb.Refines.RootSteps.{
  Idle, unused, used, list_at, At, rests, holds_links, holds_bytes, resting, holding_links,
  holding_bytes, open_at, claim_at, assemble_key-At, assign_key-resting, assemble_value-claimed,
  clear,
}
use mathlib.Core.Path.{subst}

module _ {C : Type 0} where
  -- AssignNode of the bytes of Data, whose Maybe is absent.
  bytes_absent :
      (v : Node C) (x : Bytes)
      → assign_bytes_node v (record { m = Maybe.absent; v = x }) ≡ (as_bytes v >>= λ b. stored b)
  unfolding assign_bytes_node
  bytes_absent (Node.bytes b) x = refl
  bytes_absent (Node.typed (Typed.bytes b)) x = refl
  bytes_absent _ x = refl

  module _ (m : Maybe) where
    -- The same states, with `s` in another form.
    held_links :
        (fs : Fields C) (ls : List (PbLink C)) (st : _) (f s : ℕ)
        → fs.links ≡ some ls
        → (resting m 0 fs (list_at Maybe.value ls st f)).s ≡ s
        → At m fs (record (holding_links m fs (list_at Maybe.value ls st f)) { s = s })
    held_links fs ls st f s h e =
        subst (λ s. At m fs (record (holding_links m fs (list_at Maybe.value ls st f)) { s = s })) e
          (holds_links ls st f h)

    held_bytes :
        (fs : Fields C) (b : Bytes) (l : ListAssembler C) (s : ℕ)
        → Idle fs.links l
        → fs.bytes ≡ some b
        → (resting m 1 fs l).s ≡ s
        → At m fs (record (holding_bytes m fs l) { s = s })
    held_bytes fs b l s i h e =
        subst (λ s. At m fs (record (holding_bytes m fs l) { s = s })) e (holds_bytes b l i h)

    links_child :
        (v : Node C) (d : Option Bytes) (l : ListAssembler C)
        → Idle none l
        → let fs : Fields C = record { links = none; bytes = d } in
          Follows
            (λ a fs'. At m fs' a)
            (Root.assign_child_node Child.links v (open_at m Child.links fs l))
            (set Child.links v fs)
    unfolding Root.assign_child_node Root.on_links LinkList.new_builder
    links_child v d l unused =
        Follows-bind (ListValues.assign_node-follows v) λ a ls r. finished_list d ls a r
      where
        finished_list :
            (d : Option Bytes) (ls : List (PbLink C)) (a : ListAssembler C)
            → IsList ls a
            → Follows
                (λ a fs'. At m fs' a)
                (ok (record (open_at m Child.links (record { links = none; bytes = d }) a) {
                  links = a;
                }))
                (ok (record { links = some ls; bytes = d }))
        finished_list d ls a (list_of st f) =
            values (held_links (record { links = some ls; bytes = d }) ls st f _ refl (omega arith))

    assign_child :
        (c : Child) (v : Node C) (fs : Fields C) (l : ListAssembler C)
        → Idle fs.links l
        → has c fs ≡ false
        → Follows (λ a fs'. At m fs' a) (Root.assign_child_node c v (open_at m c fs l)) (set c v fs)
    unfolding Root.assign_child_node Root.on_bytes
    assign_child c v fs l i h = go c fs.links fs.bytes i h
      where
        go :
            (c : Child) (ls : Option (List (PbLink C))) (d : Option Bytes)
            → let fs : Fields C = record { links = ls; bytes = d } in
              Idle ls l
              → has c fs ≡ false
              → Follows
                  (λ a fs'. At m fs' a)
                  (Root.assign_child_node c v (open_at m c fs l))
                  (set c v fs)
        go Child.links (some ls) d i e = absurd (cc)
        go Child.links none d i e = links_child v d l i
        go Child.bytes ls (some d) i e = absurd (cc)
        go Child.bytes ls none i e = rw (bytes_absent v []) (
            rw bind_assoc (
              Follows-bind (as_bytes-Same v)
                λ b b' p. values (rw p (held_bytes _ b' l _ i refl (omega arith)))))

    module _ {ℓ κ μ} {A : Type ℓ} {B : Type κ} {Q : A → B → Type μ}
        (k : RootAssembler C → Outcome A) (k' : Fields C → Outcome B)
        (then : (a : RootAssembler C) (fs : Fields C) → At m fs a → Follows Q (k a) (k' fs)) where
      -- An entry's value, once its key was read.
      value_follows :
          (o : Option Child) (key : Bytes) (v : Node C) (fs : Fields C) (l : ListAssembler C)
          → Idle fs.links l
          → Follows Q
              (do
                a₂ ← claim_at m MaState.expect_value o key fs l
                (c, a₃) ← Root.assemble_value a₂
                a₄ ← Root.assign_child_node c v a₃
                k a₄)
              (put_at o key v fs >>= k')
      value_follows none key v fs l i = errors
      value_follows (some c) key v fs l i = elim (Bool-cases (has c fs)) [
        | inl e ↦ rw e errors
        | inr e ↦
            rw e
              (rw (assemble_value-claimed m c fs l) (Follows-bind (assign_child c v fs l i e) then))
      ]

    entries_follow :
        (es : Entries C) (fs : Fields C) (a : RootAssembler C)
        → At m fs a
        → Follows (λ a fs'. At m fs' a) (Root.assign_entries es a) (put_all es fs)
    unfolding Root.assign_entries
    entries_follow Entries.end fs a h = values h
    entries_follow (Entries.entry_fails e) fs a h = errors
    entries_follow (Entries.entry key v es) fs a h =
        let (f, l, i, e) = assemble_key-At m fs a h in
        rw e (
          rw bind_assoc (
            Follows-bind (as_string-Same key) λ s s' p. rw p (
              rw (assign_key-resting m s' f fs l) (
                value_follows (Root.assign_entries es) (put_all es)
                  (λ a' fs' h'. entries_follow es fs' a' h') (child_of s') s' v fs l i))))

  -- The assembler holds the finished node `n`.
  pub data IsBuilt (n : PbNode C) : RootAssembler C → Type 0 where
    built_of : (a : RootAssembler C) → Root.build a ≡ ok n → IsBuilt n a

  finish-resting :
      (m : Maybe) (f : ℕ) (fs : Fields C) (l : ListAssembler C)
      → Idle fs.links l
      → Follows (λ a n. IsBuilt n a) (Root.finish (resting m f fs l)) (complete fs)
  unfolding Root.finish Root.build Root.target LinkList.target
  finish-resting m f fs l i = go fs.links l i
    where
      go :
          (ls : Option (List (PbLink C))) (l : ListAssembler C)
          → Idle ls l
          → let fs' : Fields C = record fs { links = ls } in
            Follows (λ a n. IsBuilt n a) (Root.finish (resting m f fs' l)) (complete fs')
      go none l i = rw (clear Child.links (record fs { links = none })) errors
      go (some ls) _ (used _ st g) =
          rw (clear Child.links (record fs { links = some ls })) (values (built_of _ refl))

  finish-bytes :
      (m : Maybe) (fs : Fields C) (l : ListAssembler C) (b : Bytes)
      → fs.bytes ≡ some b
      → Root.finish (holding_bytes m fs l) ≡ Root.finish (resting m 1 fs l)
  unfolding Root.finish
  finish-bytes m fs l b e = rw (e, field_of) refl

  finish-At :
      (m : Maybe) (fs : Fields C) (a : RootAssembler C)
      → At m fs a
      → Follows (λ a n. IsBuilt n a) (Root.finish a) (complete fs)
  unfolding Root.finish Root.build Root.target LinkList.target
  finish-At m fs a (rests f l i) = finish-resting m f fs l i
  finish-At m fs a (holds_links ls st f e) =
      rw (clear Child.links fs) (rw e (values (built_of _ refl)))
  finish-At m fs a (holds_bytes b l i e) = rw (finish-bytes m fs l b e) (finish-resting m 1 fs l i)

  filled :
      (es : Entries C)
      → Follows
          (λ a n. IsBuilt n a)
          (do a ← Root.assign_entries es Root.new_builder; Root.finish a)
          (do fs ← put_all es no_fields; complete fs)
  unfolding Root.new_builder LinkList.new_builder
  filled es =
      Follows-bind (entries_follow Maybe.absent es no_fields _ (rests 0 _ unused))
        λ a fs h. finish-At Maybe.absent fs a h

  -- The same of an iterator of this package, which comes to its end.
  ended :
      (it : Outcome (Entries C))
      → Ends it
      → Follows
          (λ a n. IsBuilt n a)
          (do es ← it; a ← Root.assign_entries es Root.new_builder; Root.finish a)
          (do es ← it; fs ← put_all es no_fields; complete fs)
  ended it (es, e) = rw e (filled es)

  -- AssignNode of the PBNode assembler follows the description, for every node.
  pub assign_node-follows :
      (v : Node C)
      → Follows (λ a n. IsBuilt n a) (Root.assign_node v Root.new_builder) (node_from v)
  unfolding Root.assign_node Root.new_builder Root.build Root.target LinkList.target node_from
      map_iterator
  assign_node-follows (Node.typed (Typed.pb_node n)) = values (built_of _ refl)
  assign_node-follows (Node.map es) = filled es
  assign_node-follows (Node.typed (Typed.pb_link n)) = ended _ (link_entries-Ends n)
  assign_node-follows (Node.typed (Typed.pb_link_repr n)) = ended _ (link_entries_repr-Ends n)
  assign_node-follows (Node.typed (Typed.pb_node_repr n)) = ended _ (node_entries_repr-Ends n)
  assign_node-follows _ = errors
