-- ===== src/Run/Calls.antt =====
-- Callers of the PBLink assembler.
use go_codec_dagpb.Common.{◌≡◌, refl, ◌⊎◌, pos, some, none, [], ◌∷◌, List, true, false}
use go_codec_dagpb.Outcome.{
  Error, ok, err, panic, wrong_kind, nil_pointer, rejected_unbox, unreachable, ◌>>=◌,
}
use go_codec_dagpb.Schema.{
  Maybe, MaState, PbLink, Link as IpldLink, nil, cid_link, hash_key, tsize_key,
}
use go_codec_dagpb.Message.{field_of}
use go_codec_dagpb.Node.{Node, Typed, Entries}
use go_codec_dagpb.Node.Access
use go_codec_dagpb.Assembler.Calls.{Call, AssemblerMixins}
use go_codec_dagpb.Assembler.Link
use go_codec_dagpb.Assembler.Link.{LinkAssembler, Child}
use go_codec_dagpb.Client.LinkEvents.{Event, run}
use go_codec_dagpb.Assembler.LinkRepr
use go_codec_dagpb.Client.Provenance.{built_hash-given}
use go_codec_dagpb.Client.ReprCalls.{repr_run, repr_run-build}
use go_codec_dagpb.Node.MaybeMethods.{string_maybe, maybe_methods-agree}
use go_codec_dagpb.Refines.Finishes.{hash_entry, can_finish}
use go_codec_dagpb.Run.Cid.{Cid}
use go_codec_dagpb.Run.Examples.{cid_a, cid_b}
use go_codec_dagpb.Run.Refine.{built_link}

abbrev refusing_calls : AssemblerMixins Cid
refusing_calls k c = err wrong_kind

-- Hash by AssembleEntry, then Tsize by AssembleKey and AssembleValue.
abbrev calls : List (Event Cid)
calls =
    Event.own_call (Call.begin_map (pos 2))
    ∷ Event.entry hash_key
    ∷ Event.child_call Child.hash (Call.assign_link (cid_link cid_a))
    ∷ Event.key
    ∷ Event.key_call (Call.assign_string tsize_key)
    ∷ Event.value
    ∷ Event.child_call Child.tsize (Call.assign_int (pos 3))
    ∷ Event.finish
    ∷ []

abbrev IsGiven : IpldLink Cid → Type 0
IsGiven l = l ≡ cid_link cid_a

calls-build : (do a ← run refusing_calls calls Link.new_builder; Link.build a) ≡ ok built_link
unfolding run Link.new_builder Link.build Link.child_of
calls-build = refl

built_hash-given_example : built_link.hash ≡ cid_link cid_a
built_hash-given_example =
    built_hash-given IsGiven refusing_calls calls
      (tt, (tt, (refl, (tt, (tt, (tt, (tt, (tt, tt)))))))) built_link calls-build

repr_run-build_example :
    ((l : PbLink Cid)
      → (do a ← run refusing_calls calls Link.new_builder; Link.build a) ≡ ok l
      → (do b ← repr_run refusing_calls calls LinkRepr.new_builder; LinkRepr.build b) ≡ ok l)
    × ((e : Error)
        → (do a ← run refusing_calls calls Link.new_builder; Link.build a) ≡ err e
        → (do b ← repr_run refusing_calls calls LinkRepr.new_builder; LinkRepr.build b) ≡ err e)
repr_run-build_example = repr_run-build refusing_calls calls

-- The child assembler of Hash is kept, and called again once Tsize was begun: the typed assembler
-- panics, the representation assembler takes the second link.
abbrev kept_child : List (Event Cid)
kept_child =
    Event.entry hash_key
    ∷ Event.child_call Child.hash (Call.assign_link (cid_link cid_b))
    ∷ Event.entry tsize_key
    ∷ Event.child_call Child.hash (Call.assign_link (cid_link cid_a))
    ∷ Event.child_call Child.tsize (Call.assign_int (pos 3))
    ∷ Event.finish
    ∷ []

kept_child-typed : run refusing_calls kept_child Link.new_builder ≡ panic nil_pointer
unfolding run Link.new_builder Link.child_of
kept_child-typed = refl

kept_child-repr :
    (do b ← repr_run refusing_calls kept_child LinkRepr.new_builder; LinkRepr.build b)
    ≡ ok built_link
unfolding repr_run LinkRepr.new_builder LinkRepr.build Link.child_of
kept_child-repr = refl

-- A call that the kept child refuses never reads its pointer: both assemblers give the error.
abbrev kept_child_null : List (Event Cid)
kept_child_null =
    Event.entry hash_key
    ∷ Event.child_call Child.hash (Call.assign_link (cid_link cid_b))
    ∷ Event.entry tsize_key
    ∷ Event.child_call Child.hash Call.assign_null
    ∷ []

kept_child_null-typed : run refusing_calls kept_child_null Link.new_builder ≡ err wrong_kind
unfolding run Link.new_builder Link.child_of
kept_child_null-typed = refl

kept_child_null-repr : repr_run refusing_calls kept_child_null LinkRepr.new_builder ≡ err wrong_kind
unfolding repr_run LinkRepr.new_builder Link.child_of
kept_child_null-repr = refl

maybe_methods-agree_example :
    let m = string_maybe {C = Cid} (record { m = Maybe.null; v = [] }) in
    ((m.exists ≡ true)
      × (m.is_absent ≡ false)
      × (m.is_null ≡ false)
      × (m.must ≡ ok [])
      × (m.as_node ≡ ok (Node.typed (Typed.string []))))
    ⊎ ((m.exists ≡ false)
        × (m.must ≡ panic rejected_unbox)
        × (((m.is_absent ≡ true) × (m.is_null ≡ false) × (m.as_node ≡ ok Node.absent))
            ⊎ ((m.is_absent ≡ false) × (m.is_null ≡ true) × (m.as_node ≡ ok Node.null))
            ⊎ ((m.is_absent ≡ false) × (m.is_null ≡ false) × (m.as_node ≡ panic unreachable))))
unfolding string_maybe
maybe_methods-agree_example = maybe_methods-agree Typed.string (record { m = Maybe.null; v = [] })

-- Tsize alone.
abbrev one_entry : Entries Cid
one_entry = Entries.entry (Node.string tsize_key) (Node.int (pos 3)) Entries.end

abbrev after_tsize : LinkAssembler Cid
after_tsize = record {
  w =
      some
        (record { hash = nil; name = field_of [] none; tsize = field_of (pos 0) (some (pos 3)) });
  m = Maybe.absent;
  state = MaState.mid_value;
  s = 4;
  f = 2;
  cm = Maybe.absent;
  hash_w = false;
}

one_entry-taken : Link.assign_entries one_entry Link.new_builder ≡ ok after_tsize
unfolding Link.assign_entries Link.new_builder Link.child_of Access.as_string Access.as_int
one_entry-taken = refl

can_finish_example :
    ((x : PbLink Cid) × ((do b ← Link.finish after_tsize; Link.build b) ≡ ok x))
    ⊎ ((x : PbLink Cid) × (x.hash ≡ cid_link cid_a)
        × ((do
          b ← Link.assign_entries (hash_entry (cid_link cid_a)) after_tsize
          c ← Link.finish b
          Link.build c)
            ≡ ok x))
can_finish_example = can_finish one_entry (cid_link cid_a) after_tsize one_entry-taken
