-- ===== src/Client/ReprCalls.antt =====
-- A caller of the representation assembler of PBLink, beside the same caller of the typed one.
use go_codec_dagpb.Common.{◌≡◌, refl, Bytes, false, inl, inr, Option, none, some, List, [], ◌∷◌}
use go_codec_dagpb.Outcome.{Error, Outcome, ok, err, invalid_key, ◌>>=◌}
use go_codec_dagpb.Outcome.Simulates.{
  Simulates, both, same_error, panics, Simulates-self, Simulates-bind,
}
use go_codec_dagpb.Schema.{Maybe, MaState, PbLink}
use go_codec_dagpb.Assembler.Calls.{Call, AssemblerMixins, refused}
use go_codec_dagpb.Assembler.ScalarCalls.{link_call, string_call, int_call}
use go_codec_dagpb.Assembler.MapCalls.{
  pb_link_call, pb_link_key_call, pb_link_repr_call, pb_link_repr_key_call,
}
use go_codec_dagpb.Assembler.Link
use go_codec_dagpb.Assembler.Link.{LinkAssembler, Child, child_of, begin_check}
use go_codec_dagpb.Assembler.LinkRepr
use go_codec_dagpb.Lockstep.LinkSteps.{
  Shows, shows, Lockstep, WithChild, carry_on-Lockstep, claim-Lockstep, wire-Simulates,
  assemble_key-Lockstep, assign_key_node-Lockstep, key_at-Lockstep, assemble_value-Simulates,
}
use go_codec_dagpb.Lockstep.Link.{
  IsBlind, null_IsBlind, link_IsBlind, node_IsBlind, on_hash-Lockstep, on_name-Lockstep,
  on_tsize-Lockstep, finish-Lockstep, assign_node-Lockstep, null_at-Lockstep,
}
use go_codec_dagpb.Client.LinkEvents.{Event, step, run}

module _ {C : Type 0} (mixins : AssemblerMixins C) where
  unfoldable pub repr_step : Event C → LinkAssembler C → Outcome (LinkAssembler C)
  unfolding LinkRepr.assemble_entry LinkRepr.assemble_key LinkRepr.assemble_value LinkRepr.finish
      Link.on_hash Link.on_name Link.on_tsize link_call string_call int_call pb_link_repr_call
      pb_link_repr_key_call
  repr_step (Event.entry k) a = do (c, a') ← LinkRepr.assemble_entry k a; ok a'
  repr_step Event.key a = LinkRepr.assemble_key a
  repr_step (Event.key_call c) a = pb_link_repr_key_call mixins c a
  repr_step Event.value a = do (c, a') ← LinkRepr.assemble_value a; ok a'
  repr_step (Event.child_call Child.hash c) a = Link.on_hash (link_call mixins c) a
  repr_step (Event.child_call Child.name c) a = Link.on_name (string_call mixins c) a
  repr_step (Event.child_call Child.tsize c) a = Link.on_tsize (int_call mixins c) a
  repr_step (Event.own_call c) a = pb_link_repr_call mixins c a
  repr_step Event.finish a = LinkRepr.finish a

  unfoldable pub repr_run : List (Event C) → LinkAssembler C → Outcome (LinkAssembler C)
  unfolding repr_step
  repr_run [] a = ok a
  repr_run (e ∷ es) a = do a' ← repr_step e a; repr_run es a'

module _ {C : Type 0} where
  entry-Simulates :
      (k : Bytes) (a b : LinkAssembler C)
      → Shows a b
      → Simulates WithChild (Link.assemble_entry k a) (LinkRepr.assemble_entry k b)
  unfolding Link.assemble_entry LinkRepr.assemble_entry
  entry-Simulates k a _ (shows _ w h) =
      Simulates-bind (carry_on-Lockstep a.state a _ (shows _ w h))
        λ a' b' r. go (child_of k) a' b' r
    where
      go :
          (o : Option Child) (a b : LinkAssembler C)
          → Shows a b
          → Simulates WithChild
              (elim o [
                | none ↦ err (invalid_key k)
                | some c ↦ do a₁ ← Link.claim MaState.mid_value c a; a₂ ← Link.wire c a₁; ok (c, a₂)
              ])
              (elim o [
                | none ↦ err (invalid_key k)
                | some c ↦ do a₁ ← Link.claim MaState.mid_value c b; a₂ ← Link.wire c a₁; ok (c, a₂)
              ])
      go none a b r = same_error
      go (some c) a b r =
          Simulates-bind (claim-Lockstep MaState.mid_value c a b r)
            λ a₁ b₁ r₁. wire-Simulates c c a₁ b₁ refl r₁

  begin-Lockstep :
      (a b : LinkAssembler C) → Shows a b → Lockstep (Link.begin_map a) (LinkRepr.begin_map b)
  unfolding Link.begin_map LinkRepr.begin_map
  begin-Lockstep a _ (shows _ w h) =
      Simulates-bind (Simulates-self (begin_check a.m)) λ x y e. both (shows _ w h)

  refused-IsBlind :
      (mixin : Call C → Outcome (Unit {0})) (c : Call C) → IsBlind {C = C} (refused mixin c)
  unfolding Link.is_value
  refused-IsBlind mixin c Maybe.value v v' =
      Simulates-bind (Simulates-self (mixin _)) λ x y e. both (inl refl)
  refused-IsBlind mixin c _ v v' =
      Simulates-bind (Simulates-self (mixin _)) λ x y e. both (inr (refl, refl, refl, refl))

  refused-Lockstep :
      (mixin : Call C → Outcome (Unit {0})) (c : Call C) (a b : LinkAssembler C)
      → Shows a b
      → Lockstep (refused mixin c a) (refused mixin c b)
  refused-Lockstep mixin c a b r = Simulates-bind (Simulates-self (mixin _)) λ x y e. both r

  module _ (mixins : AssemblerMixins C) where
    link_call-IsBlind : (c : Call C) → IsBlind (link_call mixins c)
    unfolding link_call
    link_call-IsBlind Call.assign_null = null_IsBlind
    link_call-IsBlind (Call.assign_link l) = link_IsBlind l
    link_call-IsBlind (Call.assign_node n) = node_IsBlind n
    link_call-IsBlind c = refused-IsBlind (mixins _) c

    own_call-Lockstep :
        (c : Call C) (a b : LinkAssembler C)
        → Shows a b
        → Lockstep (pb_link_call mixins c a) (pb_link_repr_call mixins c b)
    unfolding pb_link_call pb_link_repr_call Link.assign_null LinkRepr.assign_null
    own_call-Lockstep (Call.begin_map n) a b r = begin-Lockstep a b r
    own_call-Lockstep Call.assign_null a _ (shows _ w h) = null_at-Lockstep a.m a _ (shows _ w h)
    own_call-Lockstep (Call.assign_node v) a b r = assign_node-Lockstep v a b r
    own_call-Lockstep c a b r = refused-Lockstep (mixins _) c a b r

    key_call-Lockstep :
        (c : Call C) (a b : LinkAssembler C)
        → Shows a b
        → Lockstep (pb_link_key_call mixins c a) (pb_link_repr_key_call mixins c b)
    unfolding pb_link_key_call pb_link_repr_key_call Link.assign_key LinkRepr.assign_key
    key_call-Lockstep (Call.assign_string k) a _ (shows _ w h) =
        key_at-Lockstep a.state k a _ (shows _ w h)
    key_call-Lockstep (Call.assign_node v) a b r = assign_key_node-Lockstep v a b r
    key_call-Lockstep c a b r = refused-Lockstep (mixins _) c a b r

    step-Lockstep :
        (e : Event C) (a b : LinkAssembler C)
        → Shows a b
        → Lockstep (step mixins e a) (repr_step mixins e b)
    unfolding step repr_step
    step-Lockstep (Event.entry k) a b r =
        Simulates-bind (entry-Simulates k a b r) λ p q (e, r'). both r'
    step-Lockstep Event.key a b r = assemble_key-Lockstep a b r
    step-Lockstep (Event.key_call c) a b r = key_call-Lockstep c a b r
    step-Lockstep Event.value a b r =
        Simulates-bind (assemble_value-Simulates a b r) λ p q (e, r'). both r'
    step-Lockstep (Event.child_call Child.hash c) a b r =
        on_hash-Lockstep (link_call mixins c) a b (link_call-IsBlind c) r
    step-Lockstep (Event.child_call Child.name c) a b r =
        on_name-Lockstep (string_call mixins c) a b r
    step-Lockstep (Event.child_call Child.tsize c) a b r =
        on_tsize-Lockstep (int_call mixins c) a b r
    step-Lockstep (Event.own_call c) a b r = own_call-Lockstep c a b r
    step-Lockstep Event.finish a b r = finish-Lockstep a b r

    run-Lockstep :
        (es : List (Event C)) (a b : LinkAssembler C)
        → Shows a b
        → Lockstep (run mixins es a) (repr_run mixins es b)
    unfolding run repr_run
    run-Lockstep [] a b r = both r
    run-Lockstep (e ∷ es) a b r =
        Simulates-bind (step-Lockstep e a b r) λ a' b' r'. run-Lockstep es a' b' r'

    build-Simulates :
        (a b : LinkAssembler C)
        → Shows a b
        → Simulates (λ l l'. l ≡ l') (Link.build a) (LinkRepr.build b)
    unfolding Link.build LinkRepr.build
    build-Simulates a _ (shows _ w h) = Simulates-self _

    -- Whatever a caller calls on a typed builder of a PBLink and on the assemblers that it hands out:
    -- the same calls on a representation builder give the same link, or the same error, where the
    -- typed builder gives one.
    pub repr_run-build :
        (es : List (Event C))
        → let typed = (do a ← run mixins es Link.new_builder; Link.build a) in
          let repr = (do b ← repr_run mixins es LinkRepr.new_builder; LinkRepr.build b) in
          ((l : PbLink C) → typed ≡ ok l → repr ≡ ok l)
          × ((e : Error) → typed ≡ err e → repr ≡ err e)
    unfolding Link.new_builder LinkRepr.new_builder
    repr_run-build es = same (
        Simulates-bind (run-Lockstep es Link.new_builder _ (shows Link.new_builder false λ e. e))
          build-Simulates)
      where
        same :
            {m n : Outcome (PbLink C)}
            → Simulates (λ l l'. l ≡ l') m n
            → ((l : PbLink C) → m ≡ ok l → n ≡ ok l) × ((e : Error) → m ≡ err e → n ≡ err e)
        same (both r) = (λ l e. rw (← r) e, λ x e. absurd (cc))
        same same_error = (λ l e. absurd (cc), λ x e. e)
        same panics = (λ l e. absurd (cc), λ x e. absurd (cc))
        same _ = (λ l e. absurd (cc), λ x e. absurd (cc))
