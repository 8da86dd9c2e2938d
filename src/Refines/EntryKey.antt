-- ===== src/Refines/EntryKey.antt =====
-- AssembleEntry of the map assemblers against AssembleKey, AssignString and AssembleValue.
use Prim.Native.Nat.{bit_and}
use go_codec_dagpb.Common.{◌≡◌, refl, sym, ℕ, Bytes, Bool-cases, inl, inr, Option, none, some, ◌==◌}
use go_codec_dagpb.Outcome.{Outcome, ok, err, invalid_key, ◌>>=◌, bind_assoc, bind_same}
use go_codec_dagpb.Schema.{MaState}
use go_codec_dagpb.Assembler.Link
use go_codec_dagpb.Assembler.Link.{LinkAssembler}
use go_codec_dagpb.Assembler.LinkRepr
use go_codec_dagpb.Assembler.Root
use go_codec_dagpb.Assembler.Root.{RootAssembler}
use go_codec_dagpb.Assembler.RootRepr

module _ {C : Type 0} where
  link_claims :
      (value : LinkAssembler C → Outcome (Link.Child × LinkAssembler C)) (o : Option Link.Child)
      (k : Bytes) (a : LinkAssembler C)
      → ((c : Link.Child) (s : ℕ)
          → value (record a { s = s; state = MaState.expect_value; f = Link.index_of c }) ≡ (do
            b ← Link.wire c (record a { s = s; state = MaState.mid_value; f = Link.index_of c })
            ok (c, b)))
      → (elim o [
        | none ↦ err (invalid_key k)
        | some c ↦ do a₁ ← Link.claim MaState.mid_value c a; a₂ ← Link.wire c a₁; ok (c, a₂)
      ])
        ≡ (do
          a₂ ← elim o [
            | none ↦ err (invalid_key k)
            | some c ↦ Link.claim MaState.expect_value c (record a { state = MaState.mid_key })
          ]
          value a₂)
  unfolding Link.claim
  link_claims value none k a h = refl
  link_claims value (some c) k a h = elim (Bool-cases (bit_and a.s (Link.bit c) == 0)) [
    | inl e ↦ rw e (sym (h c _))
    | inr e ↦ rw e refl
  ]

  -- In every state, AssembleEntry of the PBLink assembler is AssembleKey, AssignString of the key and
  -- AssembleValue: the same child assembler and state, the same error, or the same panic. This holds
  -- of the typed assembler and of the representation assembler.
  pub link_entry-key :
      (k : Bytes) (a : LinkAssembler C)
      → (Link.assemble_entry k a
          ≡ (do a₁ ← Link.assemble_key a; a₂ ← Link.assign_key k a₁; Link.assemble_value a₂))
        × (LinkRepr.assemble_entry k a ≡ (do
          a₁ ← LinkRepr.assemble_key a
          a₂ ← LinkRepr.assign_key k a₁
          LinkRepr.assemble_value a₂))
  unfolding Link.assemble_entry Link.assemble_key Link.assign_key Link.assemble_value
      LinkRepr.assemble_entry LinkRepr.assemble_key LinkRepr.assign_key LinkRepr.assemble_value
  link_entry-key k a = (
    rw bind_assoc (
        bind_same (Link.carry_on a.state a) _ _
          λ a'. link_claims Link.assemble_value (Link.child_of k) k a' (valued a')),
    rw bind_assoc (
        bind_same (LinkRepr.carry_on a.state a) _ _
          λ a'. link_claims LinkRepr.assemble_value (Link.child_of k) k a' (repr_valued a')),
  )
    where
      valued :
          (a : LinkAssembler C) (c : Link.Child) (s : ℕ)
          → Link.assemble_value
              (record a { s = s; state = MaState.expect_value; f = Link.index_of c })
            ≡ (do
              b ← Link.wire c (record a { s = s; state = MaState.mid_value; f = Link.index_of c })
              ok (c, b))
      valued a Link.Child.hash s = refl
      valued a Link.Child.name s = refl
      valued a Link.Child.tsize s = refl

      repr_valued :
          (a : LinkAssembler C) (c : Link.Child) (s : ℕ)
          → LinkRepr.assemble_value
              (record a { s = s; state = MaState.expect_value; f = Link.index_of c })
            ≡ (do
              b ← Link.wire c (record a { s = s; state = MaState.mid_value; f = Link.index_of c })
              ok (c, b))
      repr_valued a Link.Child.hash s = refl
      repr_valued a Link.Child.name s = refl
      repr_valued a Link.Child.tsize s = refl

  root_claims :
      (value : RootAssembler C → Outcome (Root.Child × RootAssembler C)) (o : Option Root.Child)
      (k : Bytes) (a : RootAssembler C)
      → ((c : Root.Child) (s : ℕ)
          → value (record a { s = s; state = MaState.expect_value; f = Root.index_of c })
            ≡ ok (
              c,
              Root.wire c (record a { s = s; state = MaState.mid_value; f = Root.index_of c }),
            ))
      → (elim o [
        | none ↦ err (invalid_key k)
        | some c ↦ do a'' ← Root.claim MaState.mid_value c a; ok (c, Root.wire c a'')
      ])
        ≡ (do
          a₂ ← elim o [
            | none ↦ err (invalid_key k)
            | some c ↦ Root.claim MaState.expect_value c (record a { state = MaState.mid_key })
          ]
          value a₂)
  unfolding Root.claim
  root_claims value none k a h = refl
  root_claims value (some c) k a h = elim (Bool-cases (bit_and a.s (Root.bit c) == 0)) [
    | inl e ↦ rw e (sym (h c _))
    | inr e ↦ rw e refl
  ]

  -- In every state, AssembleEntry of the PBNode assembler is AssembleKey, AssignString of the key and
  -- AssembleValue: the same child assembler and state, the same error, or the same panic. This holds
  -- of the typed assembler and of the representation assembler.
  pub root_entry-key :
      (k : Bytes) (a : RootAssembler C)
      → (Root.assemble_entry k a
          ≡ (do a₁ ← Root.assemble_key a; a₂ ← Root.assign_key k a₁; Root.assemble_value a₂))
        × (RootRepr.assemble_entry k a ≡ (do
          a₁ ← RootRepr.assemble_key a
          a₂ ← RootRepr.assign_key k a₁
          RootRepr.assemble_value a₂))
  unfolding Root.assemble_entry Root.assemble_key Root.assign_key Root.assemble_value
      RootRepr.assemble_entry RootRepr.assemble_key RootRepr.assign_key RootRepr.assemble_value
  root_entry-key k a = (
    rw bind_assoc (
        bind_same (Root.carry_on a.state a) _ _
          λ a'. root_claims Root.assemble_value (Root.child_of k) k a' (valued a')),
    rw bind_assoc (
        bind_same (RootRepr.carry_on a.state a) _ _
          λ a'. root_claims RootRepr.assemble_value (Root.child_of k) k a' (repr_valued a')),
  )
    where
      valued :
          (a : RootAssembler C) (c : Root.Child) (s : ℕ)
          → Root.assemble_value
              (record a { s = s; state = MaState.expect_value; f = Root.index_of c })
            ≡ ok (
              c,
              Root.wire c (record a { s = s; state = MaState.mid_value; f = Root.index_of c }),
            )
      valued a Root.Child.links s = refl
      valued a Root.Child.bytes s = refl

      repr_valued :
          (a : RootAssembler C) (c : Root.Child) (s : ℕ)
          → RootRepr.assemble_value
              (record a { s = s; state = MaState.expect_value; f = Root.index_of c })
            ≡ ok (
              c,
              Root.wire c (record a { s = s; state = MaState.mid_value; f = Root.index_of c }),
            )
      repr_valued a Root.Child.links s = refl
      repr_valued a Root.Child.bytes s = refl
