-- ===== src/Lockstep/LinkSteps.antt =====
-- `_PBLink__ReprAssembler` in lockstep with `_PBLink__Assembler`.
use go_codec_dagpb.Common.{◌≡◌, refl, Bytes, Bool, true, false, none, some, if◌then◌else◌}
use go_codec_dagpb.Outcome.{◌>>=◌, bind_assoc, Outcome, ok, err, panic, invalid_state, invalid_key}
use go_codec_dagpb.Outcome.Simulates.{
  Simulates-self, Simulates, both, same_error, panics, Simulates-bind, Simulates-if,
}
use go_codec_dagpb.Schema.{Maybe, MaState}
use go_codec_dagpb.Node.{Node}
use go_codec_dagpb.Node.Access.{as_string}
use go_codec_dagpb.Assembler.Link
use go_codec_dagpb.Assembler.Link.{LinkAssembler, Child, child_of, child_at, begin_check}
use go_codec_dagpb.Assembler.LinkRepr

module _ {C : Type 0} where
  -- The second assembler is the first one, but its `ca_Hash.w` may be set where that of the first is
  -- nil.
  pub data Shows : LinkAssembler C → LinkAssembler C → Type 0 where
    shows :
        (a : LinkAssembler C) (w : Bool)
        → (a.hash_w ≡ true → w ≡ true)
        → Shows a (record a { hash_w = w })

  abbrev pub Lockstep : Outcome (LinkAssembler C) → Outcome (LinkAssembler C) → Type 0
  Lockstep = Simulates Shows

  abbrev WhenTidied : Bool × LinkAssembler C → Bool × LinkAssembler C → Type 0
  WhenTidied p q = (p.0 ≡ q.0) × Shows p.1 q.1

  field_tidied :
      (m : Maybe) (a : LinkAssembler C) (w : Bool)
      → (a.hash_w ≡ true → w ≡ true)
      → Simulates WhenTidied
          (if Link.is_value m
            then ok (true, record a { state = MaState.initial })
            else ok (false, a))
          (if Link.is_value m
            then ok (true, record a { hash_w = w; state = MaState.initial })
            else ok (false, record a { hash_w = w }))
  unfolding Link.is_value
  field_tidied Maybe.value a w h = both (refl, shows _ w h)
  field_tidied _ a w h = both (refl, shows _ w h)

  tidy_child-Simulates :
      (c : Child) (a b : LinkAssembler C)
      → Shows a b
      → Simulates WhenTidied (Link.tidy_child c a) (LinkRepr.tidy_child c b)
  unfolding Link.tidy_child LinkRepr.tidy_child Link.is_value Link.deref
  tidy_child-Simulates Child.hash a _ (shows _ w h) = go a.cm
    where
      go :
          (m : Maybe)
          → Simulates WhenTidied
              (if Link.is_value m
                then ok
                    (true, record a { hash_w = false; cm = Maybe.absent; state = MaState.initial })
                else ok (false, a))
              (if Link.is_value m
                then ok (true, record a { hash_w = w; cm = Maybe.absent; state = MaState.initial })
                else ok (false, record a { hash_w = w }))
      go Maybe.value = both (refl, shows _ w λ e. absurd (cc))
      go _ = both (refl, shows _ w h)
  tidy_child-Simulates Child.name a _ (shows _ w h) =
      Simulates-bind (Simulates-self (Link.deref a.w)) λ l l' e. rw e (field_tidied l'.name.m a w h)
  tidy_child-Simulates Child.tsize a _ (shows _ w h) =
      Simulates-bind (Simulates-self (Link.deref a.w))
        λ l l' e. rw e (field_tidied l'.tsize.m a w h)

  value_finish_tidy-Simulates :
      (a b : LinkAssembler C)
      → Shows a b
      → Simulates WhenTidied (Link.value_finish_tidy a) (LinkRepr.value_finish_tidy b)
  unfolding Link.value_finish_tidy LinkRepr.value_finish_tidy
  value_finish_tidy-Simulates a b (shows _ w h) =
      Simulates-bind (Simulates-self (child_at a.f))
        λ c c' e. rw e (tidy_child-Simulates c' a _ (shows _ w h))

  pub carry_on-Lockstep :
      (st : MaState) (a b : LinkAssembler C)
      → Shows a b
      → Lockstep (Link.carry_on st a) (LinkRepr.carry_on st b)
  unfolding Link.carry_on LinkRepr.carry_on
  carry_on-Lockstep MaState.initial a b h = both h
  carry_on-Lockstep MaState.mid_value a b h =
      Simulates-bind (value_finish_tidy-Simulates a b h)
        λ p q r. when_tidied p.0 q.0 p.1 q.1 r.0 r.1
    where
      when_tidied :
          (t t' : Bool) (a b : LinkAssembler C)
          → t ≡ t'
          → Shows a b
          → Lockstep
              (if t then ok a else panic invalid_state)
              (if t' then ok b else panic invalid_state)
      when_tidied true true a b e r = both r
      when_tidied false t' a b e r = panics
      when_tidied true false a b e r = absurd (cc)
  carry_on-Lockstep _ a b h = panics

  pub assemble_key-Lockstep :
      (a b : LinkAssembler C) → Shows a b → Lockstep (Link.assemble_key a) (LinkRepr.assemble_key b)
  unfolding Link.assemble_key LinkRepr.assemble_key
  assemble_key-Lockstep a _ (shows _ w h) =
      Simulates-bind (carry_on-Lockstep a.state a _ (shows _ w h)) λ a' b' r. primed a' b' r
    where
      primed :
          (a b : LinkAssembler C)
          → Shows a b
          → Lockstep
              (ok (record a { state = MaState.mid_key }))
              (ok (record b { state = MaState.mid_key }))
      primed a _ (shows _ w h) = both (shows _ w h)

  pub claim-Lockstep :
      (st : MaState) (c : Child) (a b : LinkAssembler C)
      → Shows a b
      → Lockstep (Link.claim st c a) (Link.claim st c b)
  unfolding Link.claim
  claim-Lockstep st c a _ (shows _ w h) = Simulates-if _ (both (shows _ w h)) same_error

  pub key_at-Lockstep :
      (st : MaState) (k : Bytes) (a b : LinkAssembler C)
      → Shows a b
      → Lockstep (Link.key_at st k a) (LinkRepr.key_at st k b)
  unfolding Link.key_at LinkRepr.key_at
  key_at-Lockstep MaState.mid_key k a b h =
      elim (child_of k)
        as (λ o.
          Lockstep
            (elim o [ none ↦ err (invalid_key k) | some c ↦ Link.claim MaState.expect_value c a ])
            (elim o [
              | none ↦ err (invalid_key k)
              | some c ↦ Link.claim MaState.expect_value c b
            ])) [ none ↦ same_error | some c ↦ claim-Lockstep MaState.expect_value c a b h ]
  key_at-Lockstep _ k a b h = panics

  pub assign_key_node-Lockstep :
      (v : Node C) (a b : LinkAssembler C)
      → Shows a b
      → Lockstep (Link.assign_key_node v a) (LinkRepr.assign_key_node v b)
  unfolding Link.assign_key_node LinkRepr.assign_key_node Link.assign_key LinkRepr.assign_key
  assign_key_node-Lockstep v a _ (shows _ w h) =
      Simulates-bind (Simulates-self (as_string v))
        λ k k' e. rw e (key_at-Lockstep a.state k' a _ (shows _ w h))

  abbrev pub WithChild : Child × LinkAssembler C → Child × LinkAssembler C → Type 0
  WithChild p q = (p.0 ≡ q.0) × Shows p.1 q.1

  wired-Shows :
      (c : Child) (a b : LinkAssembler C) → Shows a b → Shows (Link.wired c a) (Link.wired c b)
  unfolding Link.wired
  wired-Shows Child.hash a _ (shows _ w h) = shows _ true λ e. refl
  wired-Shows _ a b h = h

  pub wire-Simulates :
      (c c' : Child) (a b : LinkAssembler C)
      → c ≡ c'
      → Shows a b
      → Simulates WithChild
          (do a' ← Link.wire c a; ok (c, a'))
          (do b' ← Link.wire c' b; ok (c', b'))
  unfolding Link.wire
  wire-Simulates c c' a _ e (shows _ w h) =
      rw (bind_assoc, bind_assoc)
        (Simulates-bind (Simulates-self (Link.deref a.w))
          λ l l' e'. both (e, rw e (wired-Shows c' a _ (shows _ w h))))

  value_at-Simulates :
      (st : MaState) (a b : LinkAssembler C)
      → Shows a b
      → Simulates WithChild (Link.value_at st a) (LinkRepr.value_at st b)
  unfolding Link.value_at LinkRepr.value_at
  value_at-Simulates MaState.expect_value a _ (shows _ w h) =
      Simulates-bind (Simulates-self (child_at a.f))
        λ c c' e. wire-Simulates c c' _ _ e (shows _ w h)
  value_at-Simulates _ a b h = panics

  pub assemble_value-Simulates :
      (a b : LinkAssembler C)
      → Shows a b
      → Simulates WithChild (Link.assemble_value a) (LinkRepr.assemble_value b)
  unfolding Link.assemble_value LinkRepr.assemble_value
  assemble_value-Simulates a _ (shows _ w h) = value_at-Simulates a.state a _ (shows _ w h)
