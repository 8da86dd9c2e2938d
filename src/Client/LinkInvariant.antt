-- ===== src/Client/LinkInvariant.antt =====
-- An invariant of the PBLink assembler: a Hash that the assembler takes for assigned is in `P`.
use go_codec_dagpb.Common.{ℕ, ◌+◌, ◌≢◌, Bytes, Bool, true, false, Option, none, some, if◌then◌else◌}
use go_codec_dagpb.Outcome.{ok, err, invalid_key, ◌>>=◌}
use go_codec_dagpb.Outcome.AllOk.{AllOk, gives, fails, panics, AllOk-bind, AllOk-then, AllOk-if}
use go_codec_dagpb.Schema.{Maybe, MaState, Link as IpldLink, PbLink}
use go_codec_dagpb.Assembler.Link
use go_codec_dagpb.Assembler.Link.{LinkAssembler, Child, child_of, child_at, begin_check}

module _ {C : Type 0} (P : IpldLink C → Type 0) where
  -- `s` without the bit of Hash.
  abbrev pub other_bits : Bool → Bool → ℕ
  other_bits n t = (if n then 2 else 0) + (if t then 4 else 0)

  -- No claim of Hash waits for its value: Hash is in `P`, or it was not claimed.
  pub data Ready : LinkAssembler C → Type 0 where
    owned :
        (l : PbLink C) (m : Maybe) (st : MaState) (s f : ℕ) (cm : Maybe) (hw : Bool)
        → P l.hash
        → Ready (record { w = some l; m = m; state = st; s = s; f = f; cm = cm; hash_w = hw })
    unset :
        (w : Option (PbLink C)) (m : Maybe) (st : MaState) (n t : Bool) (f : ℕ) (hw : Bool)
        → m ≢ Maybe.value
        → Ready (record {
          w = w;
          m = m;
          state = st;
          s = other_bits n t;
          f = f;
          cm = Maybe.absent;
          hash_w = hw;
        })

  -- The states that a caller can bring about.
  pub data Inv : LinkAssembler C → Type 0 where
    ready : {a : LinkAssembler C} → Ready a → Inv a
    -- Hash was claimed, and the assembler waits for its value to be begun or assigned.
    expects :
        (w : Option (PbLink C)) (m : Maybe) (s : ℕ) (hw : Bool)
        → m ≢ Maybe.value
        → Inv (record {
          w = w;
          m = m;
          state = MaState.expect_value;
          s = s;
          f = 0;
          cm = Maybe.absent;
          hash_w = hw;
        })
    waits :
        (w : Option (PbLink C)) (m : Maybe) (s : ℕ) (hw : Bool)
        → m ≢ Maybe.value
        → Inv (record {
          w = w;
          m = m;
          state = MaState.mid_value;
          s = s;
          f = 0;
          cm = Maybe.absent;
          hash_w = hw;
        })

  deref_any :
      {A : Type 0} {Q : A → Type 0} (o : Option A) → ((a : A) → Q a) → AllOk Q (Link.deref o)
  unfolding Link.deref
  deref_any none h = panics
  deref_any (some a) h = gives (h a)

  to_initial : (a : LinkAssembler C) → Ready a → Ready (record a { state = MaState.initial })
  to_initial _ (owned l m st s f cm hw h) = owned l m _ s f cm hw h
  to_initial _ (unset w m st n t f hw h) = unset w m _ n t f hw h

  tidy-Ready :
      (c : Child) (a : LinkAssembler C) → Ready a → AllOk (λ p. Ready p.1) (Link.tidy_child c a)
  unfolding Link.tidy_child
  tidy-Ready Child.hash _ (owned l m st s f cm hw h) =
      AllOk-if (Link.is_value cm) (gives (owned l m _ s f _ _ h)) (gives (owned l m st s f cm hw h))
  tidy-Ready Child.hash _ (unset w m st n t f hw h) = gives (unset w m st n t f hw h)
  tidy-Ready Child.name a r =
      AllOk-then (Link.deref a.w)
        λ l. AllOk-if (Link.is_value l.name.m) (gives (to_initial a r)) (gives r)
  tidy-Ready Child.tsize a r =
      AllOk-then (Link.deref a.w)
        λ l. AllOk-if (Link.is_value l.tsize.m) (gives (to_initial a r)) (gives r)

  pub carry_on-Ready : (a : LinkAssembler C) → Inv a → AllOk Ready (Link.carry_on a.state a)
  unfolding Link.carry_on Link.value_finish_tidy
  carry_on-Ready a (ready r) = go a.state
    where
      go : (st : MaState) → AllOk Ready (Link.carry_on st a)
      go MaState.initial = gives r
      go MaState.mid_value =
          AllOk-bind (AllOk-then (child_at a.f) λ c. tidy-Ready c a r)
            λ p r'. AllOk-if p.0 (gives r') panics
      go _ = panics
  carry_on-Ready _ (expects w m s hw h) = panics
  carry_on-Ready _ (waits w m s hw h) = panics

  pub data IsOpen : MaState → Type 0 where
    at_key : IsOpen MaState.expect_value
    at_entry : IsOpen MaState.mid_value

  pending :
      (st : MaState) (w : Option (PbLink C)) (m : Maybe) (s : ℕ) (hw : Bool)
      → IsOpen st
      → m ≢ Maybe.value
      → Inv (record { w = w; m = m; state = st; s = s; f = 0; cm = Maybe.absent; hash_w = hw })
  pending _ w m s hw at_key h = expects w m s hw h
  pending _ w m s hw at_entry h = waits w m s hw h

  claim-Inv :
      (st : MaState) (c : Child) (a : LinkAssembler C)
      → IsOpen st
      → Ready a
      → AllOk Inv (Link.claim st c a)
  unfolding Link.claim
  claim-Inv st c _ o (owned l m st₀ s f cm hw h) =
      AllOk-if _ (gives (ready (owned l m st _ _ cm hw h))) fails
  claim-Inv st Child.hash _ o (unset w m st₀ n t f hw h) =
      AllOk-if _ (gives (pending st w m _ hw o h)) fails
  claim-Inv st Child.name _ o (unset w m st₀ false true f hw h) =
      gives (ready (unset w m st true true _ hw h))
  claim-Inv st Child.name _ o (unset w m st₀ false false f hw h) =
      gives (ready (unset w m st true false _ hw h))
  claim-Inv st Child.name _ o (unset w m st₀ true true f hw h) = fails
  claim-Inv st Child.name _ o (unset w m st₀ true false f hw h) = fails
  claim-Inv st Child.tsize _ o (unset w m st₀ true false f hw h) =
      gives (ready (unset w m st true true _ hw h))
  claim-Inv st Child.tsize _ o (unset w m st₀ false false f hw h) =
      gives (ready (unset w m st false true _ hw h))
  claim-Inv st Child.tsize _ o (unset w m st₀ true true f hw h) = fails
  claim-Inv st Child.tsize _ o (unset w m st₀ false true f hw h) = fails

  wired-Inv : (c : Child) (a : LinkAssembler C) → Inv a → Inv (Link.wired c a)
  unfolding Link.wired
  wired-Inv Child.hash _ (ready (owned l m st s f cm hw h)) = ready (owned l m st s f cm true h)
  wired-Inv Child.hash _ (ready (unset w m st n t f hw h)) = ready (unset w m st n t f true h)
  wired-Inv Child.hash _ (expects w m s hw h) = expects w m s true h
  wired-Inv Child.hash _ (waits w m s hw h) = waits w m s true h
  wired-Inv Child.name a i = i
  wired-Inv Child.tsize a i = i

  wire-Inv :
      (c : Child) (a : LinkAssembler C)
      → Inv a
      → AllOk {A = Child × LinkAssembler C} (λ p. Inv p.1) (do b ← Link.wire c a; ok (c, b))
  unfolding Link.wire
  wire-Inv c a i =
      AllOk-bind (AllOk-then (Link.deref a.w) λ l. gives (wired-Inv c a i)) λ b i'. gives i'

  pub entry-Inv :
      (k : Bytes) (a : LinkAssembler C)
      → Inv a
      → AllOk {A = Child × LinkAssembler C} (λ p. Inv p.1) (Link.assemble_entry k a)
  unfolding Link.assemble_entry
  entry-Inv k a i = AllOk-bind (carry_on-Ready a i) λ a' r. go a' r (child_of k)
    where
      go :
          (a' : LinkAssembler C)
          → Ready a'
          → (o : Option Child)
          → AllOk {A = Child × LinkAssembler C}
              (λ p. Inv p.1)
              (elim o [
                | none ↦ err (invalid_key k)
                | some c ↦ do
                  a₁ ← Link.claim MaState.mid_value c a'
                  a₂ ← Link.wire c a₁
                  ok (c, a₂)
              ])
      go a' r none = fails
      go a' r (some c) =
          AllOk-bind (claim-Inv MaState.mid_value c a' at_entry r) λ a'' i. wire-Inv c a'' i

  pub key-Inv : (a : LinkAssembler C) → Inv a → AllOk Inv (Link.assemble_key a)
  unfolding Link.assemble_key
  key-Inv a i = AllOk-bind (carry_on-Ready a i) primed
    where
      primed :
          (a : LinkAssembler C) → Ready a → AllOk Inv (ok (record a { state = MaState.mid_key }))
      primed _ (owned l m st s f cm hw h) = gives (ready (owned l m _ s f cm hw h))
      primed _ (unset w m st n t f hw h) = gives (ready (unset w m _ n t f hw h))

  pub assign_key-Inv : (k : Bytes) (a : LinkAssembler C) → Inv a → AllOk Inv (Link.assign_key k a)
  unfolding Link.assign_key Link.key_at
  assign_key-Inv k _ (expects w m s hw h) = panics
  assign_key-Inv k _ (waits w m s hw h) = panics
  assign_key-Inv k a (ready r) = go a.state
    where
      claimed :
          (o : Option Child)
          → AllOk Inv
              (elim o [ none ↦ err (invalid_key k) | some c ↦ Link.claim MaState.expect_value c a ])
      claimed none = fails
      claimed (some c) = claim-Inv MaState.expect_value c a at_key r

      go : (st : MaState) → AllOk Inv (Link.key_at st k a)
      go MaState.mid_key = claimed (child_of k)
      go _ = panics

  pub value-Inv :
      (a : LinkAssembler C)
      → Inv a
      → AllOk {A = Child × LinkAssembler C} (λ p. Inv p.1) (Link.assemble_value a)
  unfolding Link.assemble_value Link.value_at
  value-Inv _ (expects w m s hw h) = wire-Inv Child.hash _ (waits w m s hw h)
  value-Inv _ (waits w m s hw h) = panics
  value-Inv _ (ready (owned l m MaState.expect_value s f cm hw h)) =
      AllOk-then (child_at f) λ c. wire-Inv c _ (ready (owned l m _ s f cm hw h))
  value-Inv _ (ready (unset w m MaState.expect_value n t f hw h)) =
      AllOk-then (child_at f) λ c. wire-Inv c _ (ready (unset w m _ n t f hw h))
  value-Inv _ (ready (owned l m _ s f cm hw h)) = panics
  value-Inv _ (ready (unset w m _ n t f hw h)) = panics
