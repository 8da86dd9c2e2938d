-- ===== src/Client/Provenance.antt =====
-- A PBLink that is built has a Hash that the caller handed over, whatever the caller calls.
use Prim.Native.Nat.{bit_and}
use go_codec_dagpb.Common.{◌≡◌, ◌≢◌, refl, true, false, List, [], ◌∷◌, All, ◌==◌, if◌then◌else◌}
use go_codec_dagpb.Outcome.{Outcome, ok, err, panic, stuck, missing_field, ◌>>=◌}
use go_codec_dagpb.Outcome.AllOk.{
  AllOk, gives, fails, panics, AllOk-bind, AllOk-then, AllOk-if, AllOk-ok, runs_on,
}
use go_codec_dagpb.Schema.{Maybe, MaState, Link as IpldLink, PbLink, hash_key}
use go_codec_dagpb.Node.{Node, Typed, Entries}
use go_codec_dagpb.Node.Access.{
  as_string, map_iterator, link_entries_repr, node_entries, node_entries_repr,
}
use go_codec_dagpb.Assembler.Calls.{Call, AssemblerMixins}
use go_codec_dagpb.Assembler.Scalar.{assign_string_node, assign_int_node}
use go_codec_dagpb.Assembler.ScalarCalls.{link_call, string_call, int_call}
use go_codec_dagpb.Assembler.MapCalls.{pb_link_call, pb_link_key_call}
use go_codec_dagpb.Assembler.Link
use go_codec_dagpb.Assembler.Link.{LinkAssembler, Child, child_of, child_at, begin_check}
use go_codec_dagpb.Client.LinkEvents.{
  Event, step, run, Gives, GivesLink, GivesEntries, GivesRun, GivesRow,
}
use go_codec_dagpb.Client.LinkInvariant.{
  Inv, Ready, ready, owned, unset, expects, waits, carry_on-Ready, entry-Inv, key-Inv,
  assign_key-Inv, value-Inv,
}
use go_codec_dagpb.Client.LinkChildren.{hash-Inv, name-Inv, tsize-Inv}

mid : Maybe.mid_value ≢ Maybe.value
mid e = absurd (cc)

module _ {C : Type 0} (P : IpldLink C → Type 0) (mixins : AssemblerMixins C) where
  begin-Inv : (a : LinkAssembler C) → Inv P a → AllOk (Inv P) (Link.begin_map a)
  unfolding Link.begin_map
  begin-Inv _ (ready (owned l m st s f cm hw h)) =
      AllOk-then (begin_check m) λ u. gives (ready (owned l _ st s f cm hw h))
  begin-Inv _ (ready (unset w m st n t f hw h)) =
      AllOk-then (begin_check m) λ u. gives (ready (unset _ _ st n t f hw mid))
  begin-Inv _ (expects w m s hw h) = AllOk-then (begin_check m) λ u. gives (expects _ _ s hw mid)
  begin-Inv _ (waits w m s hw h) = AllOk-then (begin_check m) λ u. gives (waits _ _ s hw mid)

  null-Inv : (a : LinkAssembler C) → Inv P a → AllOk (Inv P) (Link.assign_null a)
  unfolding Link.assign_null Link.null_at
  null-Inv _ (ready (owned l Maybe.allow_null st s f cm hw h)) =
      gives (ready (owned l _ st s f cm hw h))
  null-Inv _ (ready (owned l Maybe.absent st s f cm hw h)) = fails
  null-Inv _ (ready (owned l _ st s f cm hw h)) = panics
  null-Inv _ (ready (unset w Maybe.allow_null st n t f hw h)) =
      gives (ready (unset w _ st n t f hw λ e. absurd (cc)))
  null-Inv _ (ready (unset w Maybe.absent st n t f hw h)) = fails
  null-Inv _ (ready (unset w _ st n t f hw h)) = panics
  null-Inv _ (expects w Maybe.allow_null s hw h) = gives (expects w _ s hw λ e. absurd (cc))
  null-Inv _ (expects w Maybe.absent s hw h) = fails
  null-Inv _ (expects w _ s hw h) = panics
  null-Inv _ (waits w Maybe.allow_null s hw h) = gives (waits w _ s hw λ e. absurd (cc))
  null-Inv _ (waits w Maybe.absent s hw h) = fails
  null-Inv _ (waits w _ s hw h) = panics

  finish-Inv : (a : LinkAssembler C) → Inv P a → AllOk (Inv P) (Link.finish a)
  unfolding Link.finish
  finish-Inv a i = AllOk-bind (carry_on-Ready P a i) finished
    where
      finished :
          (a : LinkAssembler C)
          → Ready P a
          → AllOk
              (Inv P)
              (if bit_and a.s 1 == 0 then err (missing_field hash_key) else Link.finished a)
      finished _ (owned l m st s f cm hw h) =
          AllOk-if _ fails (gives (ready (owned l _ _ s f cm hw h)))
      finished _ (unset w m st true true f hw h) = fails
      finished _ (unset w m st true false f hw h) = fails
      finished _ (unset w m st false true f hw h) = fails
      finished _ (unset w m st false false f hw h) = fails

  child-Inv :
      (c : Child) (v : Node C) (a : LinkAssembler C)
      → GivesLink P v
      → Inv P a
      → AllOk (Inv P) (Link.assign_child_node c v a)
  unfolding Link.assign_child_node link_call
  child-Inv Child.hash v a g i = hash-Inv P mixins (Call.assign_node v) a g i
  child-Inv Child.name v a g i = name-Inv P mixins (assign_string_node v) a i
  child-Inv Child.tsize v a g i = tsize-Inv P mixins (assign_int_node v) a i

  entries-Inv :
      (es : Entries C) (a : LinkAssembler C)
      → GivesEntries P es
      → Inv P a
      → AllOk (Inv P) (Link.assign_entries es a)
  unfolding Link.assign_entries Link.assign_key_node
  entries-Inv Entries.end a g i = gives i
  entries-Inv (Entries.entry_fails e) a g i = fails
  entries-Inv (Entries.entry k v es) a (g, gs) i = AllOk-bind (key-Inv P a i) λ a₁ i₁.
      AllOk-bind (AllOk-then (as_string k) λ s. assign_key-Inv P s a₁ i₁) λ a₂ i₂.
        AllOk-bind (value-Inv P a₂ i₂)
          λ p i₃. AllOk-bind (child-Inv p.0 v p.1 g i₃) λ a₄ i₄. entries-Inv es a₄ gs i₄

  filled-Inv :
      (it : Outcome (Entries C)) (a : LinkAssembler C)
      → GivesRun P it
      → Inv P a
      → AllOk (Inv P) (do es ← it; a' ← Link.assign_entries es a; Link.finish a')
  filled-Inv (ok es) a g i = AllOk-bind (entries-Inv es a g i) finish-Inv
  filled-Inv (err e) a g i = fails
  filled-Inv (panic p) a g i = panics
  filled-Inv stuck a g i = runs_on

  node-Inv :
      (v : Node C) (a : LinkAssembler C)
      → GivesRow P v
      → Inv P a
      → AllOk (Inv P) (Link.assign_node v a)
  unfolding Link.assign_node map_iterator
  node-Inv Node.null a g i = null-Inv a i
  node-Inv (Node.typed (Typed.pb_link l)) a g i =
      AllOk-then (begin_check a.m) λ u. gives (ready (owned l _ _ _ _ _ _ g))
  node-Inv (Node.map es) a g i = filled-Inv (ok es) a g i
  node-Inv (Node.typed (Typed.pb_link_repr n)) a g i = filled-Inv (link_entries_repr n) a g i
  node-Inv (Node.typed (Typed.pb_node n)) a g i = filled-Inv (node_entries n) a g i
  node-Inv (Node.typed (Typed.pb_node_repr n)) a g i = filled-Inv (node_entries_repr n) a g i
  node-Inv _ a g i = fails

  own_call-Inv :
      (c : Call C) (a : LinkAssembler C)
      → Gives P (Event.own_call c)
      → Inv P a
      → AllOk (Inv P) (pb_link_call mixins c a)
  unfolding pb_link_call
  own_call-Inv (Call.begin_map n) a g i = begin-Inv a i
  own_call-Inv Call.assign_null a g i = null-Inv a i
  own_call-Inv (Call.assign_node v) a g i = node-Inv v a g i
  own_call-Inv c a g i = AllOk-then (mixins _ _) λ u. gives i

  key_call-Inv :
      (c : Call C) (a : LinkAssembler C) → Inv P a → AllOk (Inv P) (pb_link_key_call mixins c a)
  unfolding pb_link_key_call Link.assign_key_node
  key_call-Inv (Call.assign_string k) a i = assign_key-Inv P k a i
  key_call-Inv (Call.assign_node v) a i = AllOk-then (as_string v) λ k. assign_key-Inv P k a i
  key_call-Inv c a i = AllOk-then (mixins _ _) λ u. gives i

  -- The invariant holds after every call that returns a value.
  step-Inv :
      (e : Event C) (a : LinkAssembler C) → Gives P e → Inv P a → AllOk (Inv P) (step mixins e a)
  unfolding step
  step-Inv (Event.entry k) a g i = AllOk-bind (entry-Inv P k a i) λ p i'. gives i'
  step-Inv Event.key a g i = key-Inv P a i
  step-Inv (Event.key_call c) a g i = key_call-Inv c a i
  step-Inv Event.value a g i = AllOk-bind (value-Inv P a i) λ p i'. gives i'
  step-Inv (Event.child_call Child.hash c) a g i = hash-Inv P mixins c a g i
  step-Inv (Event.child_call Child.name c) a g i = name-Inv P mixins (string_call mixins c) a i
  step-Inv (Event.child_call Child.tsize c) a g i = tsize-Inv P mixins (int_call mixins c) a i
  step-Inv (Event.own_call c) a g i = own_call-Inv c a g i
  step-Inv Event.finish a g i = finish-Inv a i

  run-Inv :
      (es : List (Event C)) (a : LinkAssembler C)
      → All (Gives P) es
      → Inv P a
      → AllOk (Inv P) (run mixins es a)
  unfolding run
  run-Inv [] a gs i = gives i
  run-Inv (e ∷ es) a (g, gs) i = AllOk-bind (step-Inv e a g i) λ a' i'. run-Inv es a' gs i'

  build-Inv : (a : LinkAssembler C) → Inv P a → AllOk (λ l. P l.hash) (Link.build a)
  unfolding Link.build
  build-Inv _ (ready (owned l Maybe.value st s f cm hw h)) = gives h
  build-Inv _ (ready (owned l _ st s f cm hw h)) = panics
  build-Inv _ (ready (unset w Maybe.value st n t f hw h)) = absurd (h refl)
  build-Inv _ (ready (unset w _ st n t f hw h)) = panics
  build-Inv _ (expects w Maybe.value s hw h) = absurd (h refl)
  build-Inv _ (expects w _ s hw h) = panics
  build-Inv _ (waits w Maybe.value s hw h) = absurd (h refl)
  build-Inv _ (waits w _ s hw h) = panics

  -- A caller may call the methods of a PBLink builder, of its key assembler and of its child
  -- assemblers in any order. If `P` holds of every link that the caller hands over, each call returns
  -- without an error, and Build then gives a link, then `P` holds of that link's Hash.
  pub built_hash-given :
      (es : List (Event C))
      → All (Gives P) es
      → (l : PbLink C) → (do a ← run mixins es Link.new_builder; Link.build a) ≡ ok l
      → P l.hash
  unfolding Link.new_builder
  built_hash-given es gs l e =
      AllOk-ok
        (AllOk-bind
          (run-Inv es Link.new_builder gs
            (ready (unset _ Maybe.absent MaState.initial false false 0 false λ e. absurd (cc))))
          build-Inv)
        e
