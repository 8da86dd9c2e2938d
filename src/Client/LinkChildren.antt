-- ===== src/Client/LinkChildren.antt =====
-- The invariant of the PBLink assembler under calls of its child assemblers.
use go_codec_dagpb.Common.{◌≡◌, refl, Bytes, ℤ, true, false, none, some, ◌⊎◌, inl, inr}
use go_codec_dagpb.Outcome.{Outcome}
use go_codec_dagpb.Outcome.AllOk.{AllOk, gives, fails, panics, AllOk-bind, AllOk-then, AllOk-if}
use go_codec_dagpb.Schema.{Maybe, Field, Link as IpldLink, nil}
use go_codec_dagpb.Node.{Node, Typed}
use go_codec_dagpb.Node.Access.{as_link}
use go_codec_dagpb.Assembler.Calls.{Call, AssemblerMixins}
use go_codec_dagpb.Assembler.Scalar.{store, null_at, assign_link_node}
use go_codec_dagpb.Assembler.ScalarCalls.{link_call}
use go_codec_dagpb.Assembler.Link
use go_codec_dagpb.Assembler.Link.{LinkAssembler, Child, child_of, child_at, begin_check}
use go_codec_dagpb.Client.LinkEvents.{Event, Gives}
use go_codec_dagpb.Client.LinkInvariant.{Inv, ready, owned, unset, expects, waits}

stored {ℓ κ} :
    {A : Type ℓ} {Q : Field A → Type κ} (m : Maybe) (v : A)
    → Q (record { m = Maybe.value; v = v })
    → AllOk Q (store m v)
unfolding store
stored Maybe.value v h = panics
stored Maybe.null v h = panics
stored _ v h = gives h

module _ {C : Type 0} (P : IpldLink C → Type 0) (mixins : AssemblerMixins C) where
  -- A call on `ca_Hash` leaves its cell as it was, or puts a link of `P` there.
  unset_cell :
      (c : Call C) (x : IpldLink C)
      → Gives P (Event.child_call Child.hash c)
      → AllOk
          (λ fd. ((Link.is_value fd.m ≡ true) × P fd.v) ⊎ (fd ≡ record { m = Maybe.absent; v = x }))
          (link_call mixins c (record { m = Maybe.absent; v = x }))
  unfolding link_call assign_link_node as_link Link.is_value
  unset_cell Call.assign_null x g = fails
  unset_cell (Call.assign_link l) x g = gives (inl (refl, g))
  unset_cell (Call.assign_node (Node.link l)) x g = gives (inl (refl, g l refl))
  unset_cell (Call.assign_node (Node.typed (Typed.link l))) x g = gives (inl (refl, g l refl))
  unset_cell (Call.assign_node v) x g = fails
  unset_cell c x g = AllOk-then (mixins _ _) λ u. gives (inr refl)

  null_kept : (m : Maybe) (fd : Field (IpldLink C)) → P fd.v → AllOk (λ fd'. P fd'.v) (null_at m fd)
  unfolding null_at
  null_kept Maybe.allow_null fd h = gives h
  null_kept Maybe.absent fd h = fails
  null_kept _ fd h = panics

  owned_cell :
      (c : Call C) (fd : Field (IpldLink C))
      → Gives P (Event.child_call Child.hash c)
      → P fd.v
      → AllOk (λ fd'. P fd'.v) (link_call mixins c fd)
  unfolding link_call assign_link_node as_link
  owned_cell Call.assign_null fd g h = null_kept fd.m fd h
  owned_cell (Call.assign_link l) fd g h = stored fd.m l g
  owned_cell (Call.assign_node Node.null) fd g h = null_kept fd.m fd h
  owned_cell (Call.assign_node (Node.link l)) fd g h = stored fd.m l (g l refl)
  owned_cell (Call.assign_node (Node.typed (Typed.link l))) fd g h = stored fd.m l (g l refl)
  owned_cell (Call.assign_node v) fd g h = fails
  owned_cell c fd g h = AllOk-then (mixins _ _) λ u. gives h

  -- A call on `ca_Hash` whose `w` is nil, before the cell has a link.
  through_nil-Inv :
      (c : Call C) (a : LinkAssembler C)
      → Gives P (Event.child_call Child.hash c)
      → a.cm ≡ Maybe.absent
      → Inv P a
      → AllOk (Inv P) (Link.on_target (link_call mixins c) a none)
  unfolding Link.on_target Link.is_value
  through_nil-Inv c a g e i = rw e (
      AllOk-bind (unset_cell c nil g)
        λ fd o. elim o [ inl (wrote, _) ↦ rw wrote panics | inr e' ↦ rw (e', ← e) (gives i) ])

  -- The children, with any call of theirs.
  pub hash-Inv :
      (c : Call C) (a : LinkAssembler C)
      → Gives P (Event.child_call Child.hash c)
      → Inv P a
      → AllOk (Inv P) (Link.on_hash (link_call mixins c) a)
  unfolding Link.on_hash Link.on_target Link.is_value
  hash-Inv c _ g (ready (owned l m st s f cm true h)) =
      AllOk-bind (owned_cell c _ g h) λ fd h'. gives (ready (owned _ m st s f _ true h'))
  hash-Inv c _ g (ready (owned l m st s f cm false h)) =
      AllOk-then (link_call mixins c _)
        λ fd. AllOk-if (Link.is_value fd.m) panics (gives (ready (owned l m st s f _ false h)))
  hash-Inv c _ g (ready (unset (some l) m st n t f true h)) =
      AllOk-bind (unset_cell c l.hash g) λ fd o. elim o [
        | inl (_, h') ↦ gives (ready (owned _ m st _ f _ true h'))
        | inr e ↦ rw e (gives (ready (unset (some l) m st n t f true h)))
      ]
  hash-Inv c _ g (ready (unset none m st n t f true h)) =
      through_nil-Inv c _ g refl (ready (unset none m st n t f true h))
  hash-Inv c _ g (ready (unset w m st n t f false h)) =
      through_nil-Inv c _ g refl (ready (unset w m st n t f false h))
  hash-Inv c _ g (expects (some l) m s true h) = AllOk-bind (unset_cell c l.hash g) λ fd o. elim o [
    | inl (_, h') ↦ gives (ready (owned _ m _ s 0 _ true h'))
    | inr e ↦ rw e (gives (expects (some l) m s true h))
  ]
  hash-Inv c _ g (expects none m s true h) = through_nil-Inv c _ g refl (expects none m s true h)
  hash-Inv c _ g (expects w m s false h) = through_nil-Inv c _ g refl (expects w m s false h)
  hash-Inv c _ g (waits (some l) m s true h) = AllOk-bind (unset_cell c l.hash g) λ fd o. elim o [
    | inl (_, h') ↦ gives (ready (owned _ m _ s 0 _ true h'))
    | inr e ↦ rw e (gives (waits (some l) m s true h))
  ]
  hash-Inv c _ g (waits none m s true h) = through_nil-Inv c _ g refl (waits none m s true h)
  hash-Inv c _ g (waits w m s false h) = through_nil-Inv c _ g refl (waits w m s false h)

  pub name-Inv :
      (op : Field Bytes → Outcome (Field Bytes)) (a : LinkAssembler C)
      → Inv P a
      → AllOk (Inv P) (Link.on_name op a)
  unfolding Link.on_name Link.deref
  name-Inv op _ (ready (owned l m st s f cm hw h)) =
      AllOk-then (op l.name) λ fd. gives (ready (owned _ m st s f cm hw h))
  name-Inv op _ (ready (unset (some l) m st n t f hw h)) =
      AllOk-then (op l.name) λ fd. gives (ready (unset _ m st n t f hw h))
  name-Inv op _ (expects (some l) m s hw h) =
      AllOk-then (op l.name) λ fd. gives (expects _ m s hw h)
  name-Inv op _ (waits (some l) m s hw h) = AllOk-then (op l.name) λ fd. gives (waits _ m s hw h)
  name-Inv op _ (ready (unset none m st n t f hw h)) = panics
  name-Inv op _ (expects none m s hw h) = panics
  name-Inv op _ (waits none m s hw h) = panics

  pub tsize-Inv :
      (op : Field ℤ → Outcome (Field ℤ)) (a : LinkAssembler C)
      → Inv P a
      → AllOk (Inv P) (Link.on_tsize op a)
  unfolding Link.on_tsize Link.deref
  tsize-Inv op _ (ready (owned l m st s f cm hw h)) =
      AllOk-then (op l.tsize) λ fd. gives (ready (owned _ m st s f cm hw h))
  tsize-Inv op _ (ready (unset (some l) m st n t f hw h)) =
      AllOk-then (op l.tsize) λ fd. gives (ready (unset _ m st n t f hw h))
  tsize-Inv op _ (expects (some l) m s hw h) =
      AllOk-then (op l.tsize) λ fd. gives (expects _ m s hw h)
  tsize-Inv op _ (waits (some l) m s hw h) = AllOk-then (op l.tsize) λ fd. gives (waits _ m s hw h)
  tsize-Inv op _ (ready (unset none m st n t f hw h)) = panics
  tsize-Inv op _ (expects none m s hw h) = panics
  tsize-Inv op _ (waits none m s hw h) = panics
