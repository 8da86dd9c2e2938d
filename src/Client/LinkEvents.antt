-- ===== src/Client/LinkEvents.antt =====
-- ipldsch_satisfaction.go: the calls that a caller can make on a PBLink assembler and on the assemblers
-- that it hands out.
use go_codec_dagpb.Common.{Bytes, Option, none, some, List, [], ◌∷◌, ◌≡◌}
use go_codec_dagpb.Outcome.{Outcome, ok, ◌>>=◌}
use go_codec_dagpb.Schema.{Link as IpldLink}
use go_codec_dagpb.Node.{Node, Typed, Entries}
use go_codec_dagpb.Node.Access.{as_link, map_iterator}
use go_codec_dagpb.Assembler.Calls.{Call, AssemblerMixins}
use go_codec_dagpb.Assembler.ScalarCalls.{link_call, string_call, int_call}
use go_codec_dagpb.Assembler.MapCalls.{pb_link_call, pb_link_key_call}
use go_codec_dagpb.Assembler.Link
use go_codec_dagpb.Assembler.Link.{LinkAssembler, Child}

-- `entry`, `key`, `value` and `finish` are AssembleEntry, AssembleKey, AssembleValue and Finish;
-- `key_call` is a call on the key assembler, `child_call` one on a child assembler, and `own_call` one
-- on the assembler itself.
pub data Event (C : Type 0) : Type 0 where
  entry : Bytes → Event C
  key : Event C
  key_call : Call C → Event C
  value : Event C
  child_call : Child → Call C → Event C
  own_call : Call C → Event C
  finish : Event C

module _ {C : Type 0} (mixins : AssemblerMixins C) where
  unfoldable pub step : Event C → LinkAssembler C → Outcome (LinkAssembler C)
  unfolding Link.assemble_entry Link.assemble_key Link.assemble_value Link.finish Link.on_hash
      Link.on_name Link.on_tsize link_call string_call int_call pb_link_call pb_link_key_call
  step (Event.entry k) a = do (c, a') ← Link.assemble_entry k a; ok a'
  step Event.key a = Link.assemble_key a
  step (Event.key_call c) a = pb_link_key_call mixins c a
  step Event.value a = do (c, a') ← Link.assemble_value a; ok a'
  step (Event.child_call Child.hash c) a = Link.on_hash (link_call mixins c) a
  step (Event.child_call Child.name c) a = Link.on_name (string_call mixins c) a
  step (Event.child_call Child.tsize c) a = Link.on_tsize (int_call mixins c) a
  step (Event.own_call c) a = pb_link_call mixins c a
  step Event.finish a = Link.finish a

  unfoldable pub run : List (Event C) → LinkAssembler C → Outcome (LinkAssembler C)
  unfolding step
  run [] a = ok a
  run (e ∷ es) a = do a' ← step e a; run es a'

-- Each link that the caller hands over is in `P`.
module _ {C : Type 0} (P : IpldLink C → Type 0) where
  abbrev pub GivesLink : Node C → Type 0
  GivesLink v = (l : IpldLink C) → as_link v ≡ ok l → P l

  abbrev pub GivesEntries : Entries C → Type 0
  GivesEntries Entries.end = Unit
  GivesEntries (Entries.entry_fails e) = Unit
  GivesEntries (Entries.entry k v es) = GivesLink v × GivesEntries es

  abbrev pub GivesRun : Outcome (Entries C) → Type 0
  GivesRun (ok es) = GivesEntries es
  GivesRun _ = Unit

  abbrev GivesAny : Option (Outcome (Entries C)) → Type 0
  GivesAny none = Unit
  GivesAny (some it) = GivesRun it

  abbrev pub GivesRow : Node C → Type 0
  GivesRow (Node.typed (Typed.pb_link l)) = P l.hash
  GivesRow v = GivesAny (map_iterator v)

  abbrev pub Gives : Event C → Type 0
  Gives (Event.child_call Child.hash (Call.assign_link l)) = P l
  Gives (Event.child_call Child.hash (Call.assign_node v)) = GivesLink v
  Gives (Event.own_call (Call.assign_node v)) = GivesRow v
  Gives _ = Unit
