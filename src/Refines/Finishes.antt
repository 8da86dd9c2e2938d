-- ===== src/Refines/Finishes.antt =====
-- The PBLink assembler can be finished from each state between two entries.
use go_codec_dagpb.Common.{◌≡◌, refl, Option, none, some, ◌⊎◌, inl, inr}
use go_codec_dagpb.Outcome.{Outcome, ok, ◌>>=◌, bind_assoc}
use go_codec_dagpb.Outcome.Follows.{Follows, values, errors, Follows-bind}
use go_codec_dagpb.Schema.{Maybe, Link as IpldLink, PbLink, hash_key}
use go_codec_dagpb.Node.{Node, Entries}
use go_codec_dagpb.Node.Access.{as_string, as_link}
use go_codec_dagpb.Assembler.Link
use go_codec_dagpb.Assembler.Link.{LinkAssembler, Child, child_of}
use go_codec_dagpb.Reference.LinkFields.{Fields, no_fields, complete, link_with}
use go_codec_dagpb.Refines.LinkSteps.{At, rests}
use go_codec_dagpb.Refines.LinkValues.{begun, IsRow, row_of, entries_follow, finish-At}
use mathlib.Core.Path.{subst}

-- What a computation that gave `a` followed.
reached :
    {A B : Type 0} {R : A → B → Type 0} {m : Outcome A} {n : Outcome B} {a : A}
    → Follows R m n
    → m ≡ ok a
    → (b : B) × R a b
reached {R} (values {b} r) e = (b, subst (λ a. R a b) (cc) r)
reached errors e = absurd (cc)

module _ {C : Type 0} where
  abbrev pub hash_entry : IpldLink C → Entries C
  hash_entry l = Entries.entry (Node.string hash_key) (Node.link l) Entries.end

  finishes :
      {m : Outcome (LinkAssembler C)} {x : PbLink C}
      → Follows (λ a l. IsRow l a) m (ok x)
      → (do a ← m; Link.build a) ≡ ok x
  unfolding Link.build
  finishes (values (row_of st s f)) = refl

  one_more :
      (l : IpldLink C) (fs : Fields C) (a : LinkAssembler C)
      → At Maybe.absent (record fs { hash = none }) a
      → Follows
          (λ a x. IsRow x a)
          (do b ← Link.assign_entries (hash_entry l) a; Link.finish b)
          (ok (link_with l fs))
  unfolding as_string as_link child_of
  one_more l fs a h =
      Follows-bind {g = complete} (entries_follow Maybe.absent (hash_entry l) _ a h)
        λ b fs' h'. finish-At Maybe.absent fs' b h'

  finish_with :
      (l : IpldLink C) (fs : Fields C) (a : LinkAssembler C)
      → At Maybe.absent fs a
      → ((x : PbLink C) × ((do b ← Link.finish a; Link.build b) ≡ ok x))
        ⊎ ((x : PbLink C) × (x.hash ≡ l)
            × ((do b ← Link.assign_entries (hash_entry l) a; c ← Link.finish b; Link.build c)
                ≡ ok x))
  finish_with l fs a h = go fs.hash h
    where
      go :
          (o : Option (IpldLink C))
          → let fs' : Fields C = record fs { hash = o } in
            At Maybe.absent fs' a
            → ((x : PbLink C) × ((do b ← Link.finish a; Link.build b) ≡ ok x))
              ⊎ ((x : PbLink C) × (x.hash ≡ l)
                  × ((do b ← Link.assign_entries (hash_entry l) a; c ← Link.finish b; Link.build c)
                      ≡ ok x))
      go (some k) h = inl (link_with k fs, finishes (finish-At Maybe.absent _ a h))
      go none h = inr (
        link_with l fs,
        refl,
        rw (← bind_assoc (Link.assign_entries (hash_entry l) a) Link.finish Link.build)
            (finishes (one_more l fs a h)),
      )

  -- After any entries that a new PBLink builder has taken, Finish and Build give a link; or, where
  -- they do not, the builder takes one more entry, Hash with any link, and Finish and Build then give
  -- a link with that Hash.
  pub can_finish :
      (es : Entries C) (l : IpldLink C) (a : LinkAssembler C)
      → Link.assign_entries es Link.new_builder ≡ ok a
      → ((x : PbLink C) × ((do b ← Link.finish a; Link.build b) ≡ ok x))
        ⊎ ((x : PbLink C) × (x.hash ≡ l)
            × ((do b ← Link.assign_entries (hash_entry l) a; c ← Link.finish b; Link.build c)
                ≡ ok x))
  unfolding Link.new_builder
  can_finish es l a e =
      let (fs, h) = reached (entries_follow Maybe.absent es no_fields (begun 0) (rests 0)) e in
      finish_with l fs a h
