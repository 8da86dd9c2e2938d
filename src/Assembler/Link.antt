-- ===== src/Assembler/Link.antt =====
-- ipldsch_satisfaction.go: `_PBLink__Assembler` and `_PBLink__KeyAssembler`, a state machine over the
-- keys and the values of a PBLink.
use Prim.Native.Nat.{bit_and}
use go_codec_dagpb.Common.{
  ℕ, ◌+◌, ℤ, Bytes, Bool, true, false, Option, none, some, same, ◌==◌, if◌then◌else◌,
}
use go_codec_dagpb.Outcome.{
  Outcome, ok, err, panic, invalid_state, unreachable, nil_pointer, repeated_key, invalid_key,
  missing_field, wrong_kind, ◌>>=◌, ◌>>◌,
}
use go_codec_dagpb.Schema.{
  Maybe, MaState, Field, PbLink, Link, nil, zero_link, hash_key, name_key, tsize_key,
}
use go_codec_dagpb.Node.{Node, Typed, Entries}
use go_codec_dagpb.Node.Access.{is_null, as_string, map_iterator}
use go_codec_dagpb.Assembler.Scalar.{assign_link_node, assign_string_node, assign_int_node}

-- `w` is nil or the link under assembly. `name.m` and `tsize.m` are the Maybes of `ca_Name` and
-- `ca_Tsize`, `cm` is that of `ca_Hash`; `hash_w` says that `ca_Hash.w` points to `w.Hash`.
pub record LinkAssembler (C : Type 0) : Type 0 where
  pub w : Option (PbLink C)
  pub m : Maybe
  pub state : MaState
  pub s : ℕ
  pub f : ℕ
  pub cm : Maybe
  pub hash_w : Bool

-- `ca_Hash`, `ca_Name`, `ca_Tsize`
pub data Child : Type 0 where
  hash name tsize : Child

-- fieldBit__PBLink_Hash, fieldBit__PBLink_Name, fieldBit__PBLink_Tsize, and
-- fieldBits__PBLink_sufficient, which is that of Hash.
abbrev pub bit : Child → ℕ
bit hash = 1
bit name = 2
bit tsize = 4

abbrev pub child_key : Child → Bytes
child_key hash = hash_key
child_key name = name_key
child_key tsize = tsize_key

abbrev pub index_of : Child → ℕ
index_of hash = 0
index_of name = 1
index_of tsize = 2

-- `switch k { case "Hash": … case "Name": … case "Tsize": … }`
unfoldable pub child_of : Bytes → Option Child
child_of k =
    if same k hash_key
    then some hash
    else if same k name_key
    then some name
    else if same k tsize_key
    then some tsize
    else none

-- `switch f { case 0: … case 1: … case 2: … default: panic("unreachable") }`
unfoldable pub child_at : ℕ → Outcome Child
child_at f =
    if f == 0
    then ok hash
    else if f == 1
    then ok name
    else if f == 2
    then ok tsize
    else panic unreachable

-- A read through a pointer.
unfoldable pub deref {ℓ} : {A : Type ℓ} → Option A → Outcome A
deref none = panic nil_pointer
deref (some a) = ok a

unfoldable pub is_value : Maybe → Bool
is_value Maybe.value = true
is_value _ = false

-- `switch *na.m` of BeginMap and of AssignNode.
unfoldable pub begin_check : Maybe → Outcome (Unit {0})
begin_check Maybe.value = panic invalid_state
begin_check Maybe.null = panic invalid_state
begin_check Maybe.mid_value = panic invalid_state
begin_check _ = ok tt

module _ {C : Type 0} where
  abbrev pub zero_assembler : LinkAssembler C
  zero_assembler = record {
    w = none;
    m = Maybe.absent;
    state = MaState.initial;
    s = 0;
    f = 0;
    cm = Maybe.absent;
    hash_w = false;
  }

  -- NewBuilder, Reset
  unfoldable pub new_builder : LinkAssembler C
  new_builder = record zero_assembler { w = some zero_link }

  -- Build
  unfoldable pub build : LinkAssembler C → Outcome (PbLink C)
  unfolding deref
  build a = elim a.m [ Maybe.value ↦ deref a.w | _ ↦ panic invalid_state ]

  unfoldable pub reset : LinkAssembler C → LinkAssembler C
  reset a = record a { state = MaState.initial; s = 0 }

  unfoldable pub begin_map : LinkAssembler C → Outcome (LinkAssembler C)
  unfolding begin_check
  begin_map a = do
    begin_check a.m
    let w : Option (PbLink C) = elim a.w [ none ↦ some zero_link | some l ↦ some l ]
    ok (record a { w = w; m = Maybe.mid_value })

  unfoldable pub null_at : Maybe → LinkAssembler C → Outcome (LinkAssembler C)
  null_at Maybe.allow_null a = ok (record a { m = Maybe.null })
  null_at Maybe.absent a = err wrong_kind
  null_at _ a = panic invalid_state

  unfoldable pub assign_null : LinkAssembler C → Outcome (LinkAssembler C)
  unfolding null_at
  assign_null a = null_at a.m a

  -- valueFinishTidy
  unfoldable pub tidy_child : Child → LinkAssembler C → Outcome (Bool × LinkAssembler C)
  unfolding deref is_value
  tidy_child hash a =
      if is_value a.cm
      then ok (true, record a { hash_w = false; cm = Maybe.absent; state = MaState.initial })
      else ok (false, a)
  tidy_child name a = do
    w ← deref a.w
    if is_value w.name.m then ok (true, record a { state = MaState.initial }) else ok (false, a)
  tidy_child tsize a = do
    w ← deref a.w
    if is_value w.tsize.m then ok (true, record a { state = MaState.initial }) else ok (false, a)

  unfoldable pub value_finish_tidy : LinkAssembler C → Outcome (Bool × LinkAssembler C)
  unfolding tidy_child child_at
  value_finish_tidy a = do c ← child_at a.f; tidy_child c a

  -- The `switch ma.state` that AssembleEntry, AssembleKey and Finish begin with.
  unfoldable pub carry_on : MaState → LinkAssembler C → Outcome (LinkAssembler C)
  unfolding value_finish_tidy
  carry_on MaState.initial a = ok a
  carry_on MaState.mid_value a = do
    (tidied, a') ← value_finish_tidy a
    if tidied then ok a' else panic invalid_state
  carry_on _ a = panic invalid_state

  -- `if ma.s&bit != 0 { return ErrRepeatedMapKey }; ma.s += bit; ma.state = …; ma.f = …`
  unfoldable pub claim : MaState → Child → LinkAssembler C → Outcome (LinkAssembler C)
  claim st c a =
      if bit_and a.s (bit c) == 0
      then ok (record a { s = a.s + bit c; state = st; f = index_of c })
      else err (repeated_key (child_key c))

  -- `ma.ca_Hash.w = &ma.w.Hash; ma.ca_Hash.m = &ma.cm`; the other two children need no record. The
  -- address of a field of nil panics.
  unfoldable pub wired : Child → LinkAssembler C → LinkAssembler C
  wired hash a = record a { hash_w = true }
  wired _ a = a

  unfoldable pub wire : Child → LinkAssembler C → Outcome (LinkAssembler C)
  unfolding deref wired
  wire c a = do w ← deref a.w; ok (wired c a)

  -- AssembleEntry: the child assembler, and the assembler that holds it.
  unfoldable pub assemble_entry : Bytes → LinkAssembler C → Outcome (Child × LinkAssembler C)
  unfolding carry_on child_of claim wire
  assemble_entry k a = do
    a' ← carry_on a.state a
    elim (child_of k) [
      | none ↦ err (invalid_key k)
      | some c ↦ do a₁ ← claim MaState.mid_value c a'; a₂ ← wire c a₁; ok (c, a₂)
    ]

  -- AssembleKey
  unfoldable pub assemble_key : LinkAssembler C → Outcome (LinkAssembler C)
  unfolding carry_on
  assemble_key a = do a' ← carry_on a.state a; ok (record a' { state = MaState.mid_key })

  -- AssembleValue
  unfoldable pub value_at : MaState → LinkAssembler C → Outcome (Child × LinkAssembler C)
  unfolding child_at wire
  value_at MaState.expect_value a = do
    c ← child_at a.f
    a' ← wire c (record a { state = MaState.mid_value })
    ok (c, a')
  value_at _ a = panic invalid_state

  unfoldable pub assemble_value : LinkAssembler C → Outcome (Child × LinkAssembler C)
  unfolding value_at
  assemble_value a = value_at a.state a

  -- Finish
  abbrev pub finished : LinkAssembler C → Outcome (LinkAssembler C)
  finished a = ok (record a { state = MaState.finished; m = Maybe.value })

  unfoldable pub finish : LinkAssembler C → Outcome (LinkAssembler C)
  unfolding carry_on
  finish a = do
    a' ← carry_on a.state a
    if bit_and a'.s (bit hash) == 0 then err (missing_field hash_key) else finished a'

  -- (*_PBLink__KeyAssembler).AssignString
  unfoldable pub key_at : MaState → Bytes → LinkAssembler C → Outcome (LinkAssembler C)
  unfolding child_of claim
  key_at MaState.mid_key k a = elim (child_of k) [
    | none ↦ err (invalid_key k)
    | some c ↦ claim MaState.expect_value c a
  ]
  key_at _ k a = panic invalid_state

  unfoldable pub assign_key : Bytes → LinkAssembler C → Outcome (LinkAssembler C)
  unfolding key_at
  assign_key k a = key_at a.state k a

  -- (*_PBLink__KeyAssembler).AssignNode
  unfoldable pub assign_key_node : Node C → LinkAssembler C → Outcome (LinkAssembler C)
  unfolding assign_key as_string
  assign_key_node v a = do k ← as_string v; assign_key k a

  -- The link whose Hash `ca_Hash.w` points to; `none` where it is nil.
  abbrev pub hash_target : LinkAssembler C → Option (PbLink C)
  hash_target a = if a.hash_w then a.w else none

  -- An operation of `ca_Hash`, on `ca_Hash.w` and `ma.cm`. Where `ca_Hash.w` is nil, what the operation
  -- does without it stands, its errors and its panics; one that stores a value, as `*na.m` then
  -- becomes Maybe_Value, writes through nil.
  unfoldable pub on_target :
      (Field (Link C) → Outcome (Field (Link C)))
      → LinkAssembler C
      → Option (PbLink C)
      → Outcome (LinkAssembler C)
  unfolding is_value
  on_target op a none = do
    c ← op (record { m = a.cm; v = nil })
    if is_value c.m then panic nil_pointer else ok (record a { cm = c.m })
  on_target op a (some w) = do
    c ← op (record { m = a.cm; v = w.hash })
    ok (record a { w = some (record w { hash = c.v }); cm = c.m })

  unfoldable pub on_hash :
      (Field (Link C) → Outcome (Field (Link C))) → LinkAssembler C → Outcome (LinkAssembler C)
  unfolding on_target
  on_hash op a = on_target op a (hash_target a)

  -- An operation of `ca_Name`, on `ma.w.Name`.
  unfoldable pub on_name :
      (Field Bytes → Outcome (Field Bytes)) → LinkAssembler C → Outcome (LinkAssembler C)
  unfolding deref
  on_name op a = do w ← deref a.w; c ← op w.name; ok (record a { w = some (record w { name = c }) })

  -- An operation of `ca_Tsize`, on `ma.w.Tsize`.
  unfoldable pub on_tsize :
      (Field ℤ → Outcome (Field ℤ)) → LinkAssembler C → Outcome (LinkAssembler C)
  unfolding deref
  on_tsize op a = do
    w ← deref a.w
    c ← op w.tsize
    ok (record a { w = some (record w { tsize = c }) })

  -- `na.AssembleValue().AssignNode(v)`
  unfoldable pub assign_child_node : Child → Node C → LinkAssembler C → Outcome (LinkAssembler C)
  unfolding on_hash on_name on_tsize assign_link_node assign_string_node assign_int_node
  assign_child_node hash v = on_hash (assign_link_node v)
  assign_child_node name v = on_name (assign_string_node v)
  assign_child_node tsize v = on_tsize (assign_int_node v)

  -- The loop over the iterator in AssignNode.
  unfoldable pub assign_entries : Entries C → LinkAssembler C → Outcome (LinkAssembler C)
  unfolding assemble_key assign_key_node assemble_value assign_child_node
  assign_entries Entries.end a = ok a
  assign_entries (Entries.entry_fails e) a = err e
  assign_entries (Entries.entry k v es) a = do
    a₁ ← assemble_key a
    a₂ ← assign_key_node k a₁
    (c, a₃) ← assemble_value a₂
    a₄ ← assign_child_node c v a₃
    assign_entries es a₄

  -- `v.(*_PBLink)`
  unfoldable pub link? : Node C → Option (PbLink C)
  link? (Node.typed (Typed.pb_link l)) = some l
  link? _ = none

  -- AssignNode
  unfoldable pub assign_node : Node C → LinkAssembler C → Outcome (LinkAssembler C)
  unfolding is_null assign_null link? begin_check map_iterator assign_entries finish
  assign_node v a = if is_null v then assign_null a else elim (link? v) [
    | some v2 ↦ do begin_check a.m; ok (record a { w = some v2; m = Maybe.value })
    | none ↦ elim (map_iterator v) [
      | none ↦ err wrong_kind
      | some it ↦ do es ← it; a' ← assign_entries es a; finish a'
    ]
  ]
