-- ===== src/Lockstep/RootSteps.antt =====
-- `_PBNode__ReprAssembler` in lockstep with `_PBNode__Assembler`.
use go_codec_dagpb.Common.{◌≡◌, refl, Bytes, Bool, true, false, none, some, if◌then◌else◌}
use go_codec_dagpb.Outcome.{Outcome, ok, err, panic, invalid_state, invalid_key}
use go_codec_dagpb.Outcome.Simulates.{
  Simulates-self, Simulates, both, same_error, panics, Simulates-bind, Simulates-if,
}
use go_codec_dagpb.Schema.{Maybe, MaState}
use go_codec_dagpb.Node.{Node}
use go_codec_dagpb.Node.Access.{as_string}
use go_codec_dagpb.Assembler.Root
use go_codec_dagpb.Assembler.Root.{RootAssembler, Child, child_of, child_at}
use go_codec_dagpb.Assembler.List.{ListAssembler}
use go_codec_dagpb.Lockstep.List as ListStep
use go_codec_dagpb.Assembler.RootRepr

module _ {C : Type 0} where
  -- The second assembler is the first one, but its `ca_Links.w` may be set where that of the first is
  -- nil, and its list assembler is in lockstep.
  pub data Shows : RootAssembler C → RootAssembler C → Type 0 where
    shows :
        (a : RootAssembler C) (l : ListAssembler C) (w : Bool)
        → ListStep.Shows a.links l
        → (a.links_w ≡ true → w ≡ true)
        → Shows a (record a { links = l; links_w = w })

  abbrev pub Lockstep : Outcome (RootAssembler C) → Outcome (RootAssembler C) → Type 0
  Lockstep = Simulates Shows

  abbrev WhenTidied : Bool × RootAssembler C → Bool × RootAssembler C → Type 0
  WhenTidied p q = (p.0 ≡ q.0) × Shows p.1 q.1

  tidy_child-WhenTidied :
      (c : Child) (a b : RootAssembler C)
      → Shows a b
      → WhenTidied (Root.tidy_child c a) (RootRepr.tidy_child c b)
  unfolding Root.tidy_child RootRepr.tidy_child Root.is_value
  tidy_child-WhenTidied Child.links a _ (shows _ _ w (ListStep.shows _ va r) h) = go a.links.m
    where
      go :
          (m : Maybe)
          → let l = record a.links { m = m } in
            WhenTidied (Root.tidy_child Child.links (record a { links = l })) (
              RootRepr.tidy_child Child.links
                (record a { links = record l { va = va }; links_w = w }))
      go Maybe.value = (refl, shows _ _ w (ListStep.shows _ va r) λ e. absurd (cc))
      go _ = (refl, shows _ _ w (ListStep.shows _ va r) h)
  tidy_child-WhenTidied Child.bytes a _ (shows _ l w r h) = go a.bytes.m
    where
      go :
          (m : Maybe)
          → let d = record a.bytes { m = m } in
            WhenTidied
              (Root.tidy_child Child.bytes (record a { bytes = d }))
              (RootRepr.tidy_child Child.bytes (record a { bytes = d; links = l; links_w = w }))
      go Maybe.value = (refl, shows _ l w r h)
      go _ = (refl, shows _ l w r h)

  value_finish_tidy-Simulates :
      (a b : RootAssembler C)
      → Shows a b
      → Simulates WhenTidied (Root.value_finish_tidy a) (RootRepr.value_finish_tidy b)
  unfolding Root.value_finish_tidy RootRepr.value_finish_tidy
  value_finish_tidy-Simulates a b (shows _ l w r h) =
      Simulates-bind (Simulates-self (child_at a.f))
        λ c c' e. both (rw e (tidy_child-WhenTidied c' a _ (shows _ l w r h)))

  pub carry_on-Lockstep :
      (st : MaState) (a b : RootAssembler C)
      → Shows a b
      → Lockstep (Root.carry_on st a) (RootRepr.carry_on st b)
  unfolding Root.carry_on RootRepr.carry_on
  carry_on-Lockstep MaState.initial a b h = both h
  carry_on-Lockstep MaState.mid_value a b h =
      Simulates-bind (value_finish_tidy-Simulates a b h)
        λ p q r. when_tidied p.0 q.0 p.1 q.1 r.0 r.1
    where
      when_tidied :
          (t t' : Bool) (a b : RootAssembler C)
          → t ≡ t'
          → Shows a b
          → Lockstep
              (if t then ok a else panic invalid_state)
              (if t' then ok b else panic invalid_state)
      when_tidied true true a b e r = both r
      when_tidied false t' a b e r = panics
      when_tidied true false a b e r = absurd (cc)
  carry_on-Lockstep _ a b h = panics

  pub assemble_key-Lockstep :
      (a b : RootAssembler C) → Shows a b → Lockstep (Root.assemble_key a) (RootRepr.assemble_key b)
  unfolding Root.assemble_key RootRepr.assemble_key
  assemble_key-Lockstep a _ (shows _ l w r h) =
      Simulates-bind (carry_on-Lockstep a.state a _ (shows _ l w r h)) λ a' b' r. primed a' b' r
    where
      primed :
          (a b : RootAssembler C)
          → Shows a b
          → Lockstep
              (ok (record a { state = MaState.mid_key }))
              (ok (record b { state = MaState.mid_key }))
      primed a _ (shows _ l w r h) = both (shows _ l w r h)

  pub claim-Lockstep :
      (st : MaState) (c : Child) (a b : RootAssembler C)
      → Shows a b
      → Lockstep (Root.claim st c a) (Root.claim st c b)
  unfolding Root.claim
  claim-Lockstep st c a _ (shows _ l w r h) = Simulates-if _ (both (shows _ l w r h)) same_error

  key_at-Lockstep :
      (st : MaState) (k : Bytes) (a b : RootAssembler C)
      → Shows a b
      → Lockstep (Root.key_at st k a) (RootRepr.key_at st k b)
  unfolding Root.key_at RootRepr.key_at
  key_at-Lockstep MaState.mid_key k a b h =
      elim (child_of k)
        as (λ o.
          Lockstep
            (elim o [ none ↦ err (invalid_key k) | some c ↦ Root.claim MaState.expect_value c a ])
            (elim o [
              | none ↦ err (invalid_key k)
              | some c ↦ Root.claim MaState.expect_value c b
            ])) [ none ↦ same_error | some c ↦ claim-Lockstep MaState.expect_value c a b h ]
  key_at-Lockstep _ k a b h = panics

  pub assign_key_node-Lockstep :
      (v : Node C) (a b : RootAssembler C)
      → Shows a b
      → Lockstep (Root.assign_key_node v a) (RootRepr.assign_key_node v b)
  unfolding Root.assign_key_node RootRepr.assign_key_node Root.assign_key RootRepr.assign_key
  assign_key_node-Lockstep v a _ (shows _ l w r h) =
      Simulates-bind (Simulates-self (as_string v))
        λ k k' e. rw e (key_at-Lockstep a.state k' a _ (shows _ l w r h))

  abbrev WithChild : Child × RootAssembler C → Child × RootAssembler C → Type 0
  WithChild p q = (p.0 ≡ q.0) × Shows p.1 q.1

  wire-Shows :
      (c : Child) (a b : RootAssembler C) → Shows a b → Shows (Root.wire c a) (Root.wire c b)
  unfolding Root.wire
  wire-Shows Child.links a _ (shows _ l w r h) = shows _ l true r λ e. refl
  wire-Shows _ a b h = h

  value_at-Simulates :
      (st : MaState) (a b : RootAssembler C)
      → Shows a b
      → Simulates WithChild (Root.value_at st a) (RootRepr.value_at st b)
  unfolding Root.value_at RootRepr.value_at
  value_at-Simulates MaState.expect_value a _ (shows _ l w r h) =
      Simulates-bind (Simulates-self (child_at a.f))
        λ c c' e. both (e, rw e (wire-Shows c' _ _ (shows _ l w r h)))
  value_at-Simulates _ a b h = panics

  pub assemble_value-Simulates :
      (a b : RootAssembler C)
      → Shows a b
      → Simulates WithChild (Root.assemble_value a) (RootRepr.assemble_value b)
  unfolding Root.assemble_value RootRepr.assemble_value
  assemble_value-Simulates a _ (shows _ l w r h) = value_at-Simulates a.state a _ (shows _ l w r h)
