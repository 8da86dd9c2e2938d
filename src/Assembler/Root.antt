-- ===== src/Assembler/Root.antt =====
-- ipldsch_satisfaction.go: `_PBNode__Assembler` and `_PBNode__KeyAssembler`.
use Prim.Native.Nat.{bit_and}
use go_codec_dagpb.Common.{
  ℕ, ◌+◌, Bytes, Bool, true, false, Option, none, some, [], same, ◌==◌, if◌then◌else◌,
}
use go_codec_dagpb.Outcome.{
  Outcome, ok, err, panic, invalid_state, unreachable, nil_pointer, repeated_key, invalid_key,
  missing_field, wrong_kind, ◌>>=◌, ◌>>◌,
}
use go_codec_dagpb.Schema.{Maybe, MaState, Field, PbNode, links_key, data_key}
use go_codec_dagpb.Node.{Node, Typed, Entries}
use go_codec_dagpb.Node.Access.{is_null, as_string, map_iterator}
use go_codec_dagpb.Assembler.Scalar.{assign_bytes_node}
use go_codec_dagpb.Assembler.Link.{begin_check}
use go_codec_dagpb.Assembler.List
use go_codec_dagpb.Assembler.List.{ListAssembler}

-- The PBNode under assembly is in two parts: `w.Links` is the target of `links`, and `w.Data` is
-- `bytes`. `links.m` is `cm`, the cell that `ca_Links.m` points to; `links_w` says that `ca_Links.w`
-- points to `w.Links`. `w` itself is nil in no builder of a PBNode.
pub record RootAssembler (C : Type 0) : Type 0 where
  pub bytes : Field Bytes
  pub m : Maybe
  pub state : MaState
  pub s : ℕ
  pub f : ℕ
  pub links : ListAssembler C
  pub links_w : Bool

-- `ca_Links`, `ca_Data`
pub data Child : Type 0 where
  links bytes : Child

-- fieldBit__PBNode_Links and fieldBit__PBNode_Data; fieldBits__PBNode_sufficient is that of Links.
abbrev pub bit : Child → ℕ
bit links = 1
bit bytes = 2

abbrev pub child_key : Child → Bytes
child_key links = links_key
child_key bytes = data_key

abbrev pub index_of : Child → ℕ
index_of links = 0
index_of bytes = 1

-- `switch k { case "Links": … case "Data": … }`
unfoldable pub child_of : Bytes → Option Child
child_of k = if same k links_key then some links else if same k data_key then some bytes else none

-- `switch f { case 0: … case 1: … default: panic("unreachable") }`
unfoldable pub child_at : ℕ → Outcome Child
child_at f = if f == 0 then ok links else if f == 1 then ok bytes else panic unreachable

unfoldable pub is_value : Maybe → Bool
is_value Maybe.value = true
is_value _ = false

module _ {C : Type 0} where
  -- NewBuilder, Reset
  unfoldable pub new_builder : RootAssembler C
  unfolding List.new_builder
  new_builder = record {
    bytes = record { m = Maybe.absent; v = [] };
    m = Maybe.absent;
    state = MaState.initial;
    s = 0;
    f = 0;
    links = List.new_builder;
    links_w = false;
  }

  -- `*na.w`
  unfoldable pub target : RootAssembler C → PbNode C
  unfolding List.target
  target a = record { links = List.target a.links; bytes = a.bytes }

  -- Build
  unfoldable pub build : RootAssembler C → Outcome (PbNode C)
  unfolding target
  build a = elim a.m [ Maybe.value ↦ ok (target a) | _ ↦ panic invalid_state ]

  unfoldable pub begin_map : RootAssembler C → Outcome (RootAssembler C)
  unfolding begin_check
  begin_map a = do begin_check a.m; ok (record a { m = Maybe.mid_value })

  unfoldable pub null_at : Maybe → RootAssembler C → Outcome (RootAssembler C)
  null_at Maybe.allow_null a = ok (record a { m = Maybe.null })
  null_at Maybe.absent a = err wrong_kind
  null_at _ a = panic invalid_state

  unfoldable pub assign_null : RootAssembler C → Outcome (RootAssembler C)
  unfolding null_at
  assign_null a = null_at a.m a

  -- valueFinishTidy
  unfoldable pub tidy_child : Child → RootAssembler C → Bool × RootAssembler C
  unfolding is_value
  tidy_child links a =
      if is_value a.links.m
      then (
        true,
        record a {
          links_w = false;
          links = record a.links { m = Maybe.absent };
          state = MaState.initial;
        },
      )
      else (false, a)
  tidy_child bytes a =
      if is_value a.bytes.m then (true, record a { state = MaState.initial }) else (false, a)

  unfoldable pub value_finish_tidy : RootAssembler C → Outcome (Bool × RootAssembler C)
  unfolding tidy_child child_at
  value_finish_tidy a = do c ← child_at a.f; ok (tidy_child c a)

  -- The `switch ma.state` that AssembleEntry, AssembleKey and Finish begin with.
  unfoldable pub carry_on : MaState → RootAssembler C → Outcome (RootAssembler C)
  unfolding value_finish_tidy
  carry_on MaState.initial a = ok a
  carry_on MaState.mid_value a = do
    (tidied, a') ← value_finish_tidy a
    if tidied then ok a' else panic invalid_state
  carry_on _ a = panic invalid_state

  -- `if ma.s&bit != 0 { return ErrRepeatedMapKey }; ma.s += bit; ma.state = …; ma.f = …`
  unfoldable pub claim : MaState → Child → RootAssembler C → Outcome (RootAssembler C)
  claim st c a =
      if bit_and a.s (bit c) == 0
      then ok (record a { s = a.s + bit c; state = st; f = index_of c })
      else err (repeated_key (child_key c))

  -- `ma.ca_Links.w = &ma.w.Links; ma.ca_Links.m = &ma.cm`; `ca_Data` needs no record.
  unfoldable pub wire : Child → RootAssembler C → RootAssembler C
  wire links a = record a { links_w = true }
  wire bytes a = a

  -- AssembleEntry: the child assembler, and the assembler that holds it.
  unfoldable pub assemble_entry : Bytes → RootAssembler C → Outcome (Child × RootAssembler C)
  unfolding carry_on child_of claim wire
  assemble_entry k a = do
    a' ← carry_on a.state a
    elim (child_of k) [
      | none ↦ err (invalid_key k)
      | some c ↦ do a'' ← claim MaState.mid_value c a'; ok (c, wire c a'')
    ]

  -- AssembleKey
  unfoldable pub assemble_key : RootAssembler C → Outcome (RootAssembler C)
  unfolding carry_on
  assemble_key a = do a' ← carry_on a.state a; ok (record a' { state = MaState.mid_key })

  -- AssembleValue
  unfoldable pub value_at : MaState → RootAssembler C → Outcome (Child × RootAssembler C)
  unfolding child_at wire
  value_at MaState.expect_value a = do
    c ← child_at a.f
    ok (c, wire c (record a { state = MaState.mid_value }))
  value_at _ a = panic invalid_state

  unfoldable pub assemble_value : RootAssembler C → Outcome (Child × RootAssembler C)
  unfolding value_at
  assemble_value a = value_at a.state a

  -- Finish
  abbrev pub finished : RootAssembler C → Outcome (RootAssembler C)
  finished a = ok (record a { state = MaState.finished; m = Maybe.value })

  unfoldable pub finish : RootAssembler C → Outcome (RootAssembler C)
  unfolding carry_on
  finish a = do
    a' ← carry_on a.state a
    if bit_and a'.s (bit links) == 0 then err (missing_field links_key) else finished a'

  -- (*_PBNode__KeyAssembler).AssignString
  unfoldable pub key_at : MaState → Bytes → RootAssembler C → Outcome (RootAssembler C)
  unfolding child_of claim
  key_at MaState.mid_key k a = elim (child_of k) [
    | none ↦ err (invalid_key k)
    | some c ↦ claim MaState.expect_value c a
  ]
  key_at _ k a = panic invalid_state

  unfoldable pub assign_key : Bytes → RootAssembler C → Outcome (RootAssembler C)
  unfolding key_at
  assign_key k a = key_at a.state k a

  -- (*_PBNode__KeyAssembler).AssignNode
  unfoldable pub assign_key_node : Node C → RootAssembler C → Outcome (RootAssembler C)
  unfolding assign_key as_string
  assign_key_node v a = do k ← as_string v; assign_key k a

  -- An operation of `ca_Links`, on `ma.w.Links` and `ma.cm`, while `ca_Links.w` points there. A caller
  -- that keeps `ca_Links` when the Links are done is not modelled.
  unfoldable pub on_links :
      (ListAssembler C → Outcome (ListAssembler C)) → RootAssembler C → Outcome (RootAssembler C)
  on_links op a = do
    l ← if a.links_w then op a.links else panic nil_pointer
    ok (record a { links = l })

  -- An operation of `ca_Data`, on `ma.w.Data`.
  unfoldable pub on_bytes :
      (Field Bytes → Outcome (Field Bytes)) → RootAssembler C → Outcome (RootAssembler C)
  on_bytes op a = do c ← op a.bytes; ok (record a { bytes = c })

  -- `na.AssembleValue().AssignNode(v)`
  unfoldable pub assign_child_node : Child → Node C → RootAssembler C → Outcome (RootAssembler C)
  unfolding on_links on_bytes List.assign_node assign_bytes_node
  assign_child_node links v = on_links (List.assign_node v)
  assign_child_node bytes v = on_bytes (assign_bytes_node v)

  -- The loop over the iterator in AssignNode.
  unfoldable pub assign_entries : Entries C → RootAssembler C → Outcome (RootAssembler C)
  unfolding assemble_key assign_key_node assemble_value assign_child_node
  assign_entries Entries.end a = ok a
  assign_entries (Entries.entry_fails e) a = err e
  assign_entries (Entries.entry k v es) a = do
    a₁ ← assemble_key a
    a₂ ← assign_key_node k a₁
    (c, a₃) ← assemble_value a₂
    a₄ ← assign_child_node c v a₃
    assign_entries es a₄

  -- `v.(*_PBNode)`
  unfoldable pub node? : Node C → Option (PbNode C)
  node? (Node.typed (Typed.pb_node n)) = some n
  node? _ = none

  -- `*na.w = *v2`
  unfoldable pub overwrite : PbNode C → RootAssembler C → RootAssembler C
  overwrite n a = record a {
    bytes = n.bytes;
    m = Maybe.value;
    links = record a.links { x = n.links.x; va = record a.links.va { w = none } };
  }

  -- AssignNode
  unfoldable pub assign_node : Node C → RootAssembler C → Outcome (RootAssembler C)
  unfolding is_null assign_null node? overwrite begin_check map_iterator assign_entries finish
  assign_node v a = if is_null v then assign_null a else elim (node? v) [
    | some v2 ↦ do begin_check a.m; ok (overwrite v2 a)
    | none ↦ elim (map_iterator v) [
      | none ↦ err wrong_kind
      | some it ↦ do es ← it; a' ← assign_entries es a; finish a'
    ]
  ]
