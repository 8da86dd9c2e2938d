-- ===== src/Assembler/Scalar.antt =====
-- ipldsch_satisfaction.go: `_Bytes__Assembler`, `_Int__Assembler`, `_Link__Assembler` and
-- `_String__Assembler`. Each holds pointers to a value and to its Maybe: a `Field`.
use go_codec_dagpb.Common.{ℤ, Bytes, Option, none, some, if◌then◌else◌}
use go_codec_dagpb.Outcome.{Outcome, ok, err, panic, invalid_state, unreachable, wrong_kind, ◌>>=◌}
use go_codec_dagpb.Schema.{Maybe, Link, Field}
use go_codec_dagpb.Node.{Node, Typed}
use go_codec_dagpb.Node.Access.{is_null, as_bytes, as_int, as_string, as_link}

module _ {ℓ} {A : Type ℓ} where
  -- `switch *na.m { case Maybe_Value, Maybe_Null: panic(…) }; na.w.x = v; *na.m = Maybe_Value`
  unfoldable pub store : Maybe → A → Outcome (Field A)
  store Maybe.value v = panic invalid_state
  store Maybe.null v = panic invalid_state
  store _ v = ok (record { m = Maybe.value; v = v })

  unfoldable pub null_at : Maybe → Field A → Outcome (Field A)
  null_at Maybe.allow_null c = ok (record c { m = Maybe.null })
  null_at Maybe.absent c = err wrong_kind
  null_at Maybe.value c = panic invalid_state
  null_at Maybe.null c = panic invalid_state
  null_at Maybe.mid_value c = panic unreachable

  -- AssignNull, the same text in the four types.
  unfoldable pub assign_null : Field A → Outcome (Field A)
  unfolding null_at
  assign_null c = null_at c.m c

  -- Build: the finished value.
  unfoldable pub build : Field A → Outcome A
  build c = elim c.m [ Maybe.value ↦ ok c.v | _ ↦ panic invalid_state ]

unfoldable pub assign_bytes : Bytes → Field Bytes → Outcome (Field Bytes)
unfolding store
assign_bytes v c = store c.m v

unfoldable pub assign_int : ℤ → Field ℤ → Outcome (Field ℤ)
unfolding store
assign_int v c = store c.m v

unfoldable pub assign_string : Bytes → Field Bytes → Outcome (Field Bytes)
unfolding store
assign_string v c = store c.m v

unfoldable pub assign_link : {C : Type 0} → Link C → Field (Link C) → Outcome (Field (Link C))
unfolding store
assign_link v c = store c.m v

-- `v.(*_Bytes)`, `v.(*_Int)`, `v.(*_String)`, `v.(*_Link)`
module _ {C : Type 0} where
  bytes? : Node C → Option Bytes
  bytes? (Node.typed (Typed.bytes b)) = some b
  bytes? _ = none

  int? : Node C → Option ℤ
  int? (Node.typed (Typed.int i)) = some i
  int? _ = none

  string? : Node C → Option Bytes
  string? (Node.typed (Typed.string s)) = some s
  string? _ = none

  link? : Node C → Option (Link C)
  link? (Node.typed (Typed.link l)) = some l
  link? _ = none

  -- AssignNode: null, a node of the type itself (copied), or any node of its kind.
  unfoldable pub assign_bytes_node : Node C → Field Bytes → Outcome (Field Bytes)
  unfolding assign_null store assign_bytes bytes? is_null as_bytes
  assign_bytes_node v c =
      if is_null v
      then assign_null c
      else elim (bytes? v) [ some v2 ↦ store c.m v2 | none ↦ do v2 ← as_bytes v; assign_bytes v2 c ]

  unfoldable pub assign_int_node : Node C → Field ℤ → Outcome (Field ℤ)
  unfolding assign_null store assign_int int? is_null as_int
  assign_int_node v c =
      if is_null v
      then assign_null c
      else elim (int? v) [ some v2 ↦ store c.m v2 | none ↦ do v2 ← as_int v; assign_int v2 c ]

  unfoldable pub assign_string_node : Node C → Field Bytes → Outcome (Field Bytes)
  unfolding assign_null store assign_string string? is_null as_string
  assign_string_node v c = if is_null v then assign_null c else elim (string? v) [
    | some v2 ↦ store c.m v2
    | none ↦ do v2 ← as_string v; assign_string v2 c
  ]

  unfoldable pub assign_link_node : Node C → Field (Link C) → Outcome (Field (Link C))
  unfolding assign_null store assign_link link? is_null as_link
  assign_link_node v c =
      if is_null v
      then assign_null c
      else elim (link? v) [ some v2 ↦ store c.m v2 | none ↦ do v2 ← as_link v; assign_link v2 c ]
