-- ===== src/Assembler/Calls.antt =====
-- ipld.NodeAssembler: a call of one of its methods, and what go-ipld-prime gives to the methods of this
-- package's assemblers.
use go_codec_dagpb.Common.{ℕ, ℤ, pos, Bytes, Bool, false, []}
use go_codec_dagpb.Outcome.{Error, Outcome, ok, err, ◌>>◌}
use go_codec_dagpb.Schema.{Link, nil}
use go_codec_dagpb.Node.{Node}
use go_codec_dagpb.Node.Interface.{Kind}

pub data Call (C : Type 0) : Type 0 where
  begin_map : ℤ → Call C
  begin_list : ℤ → Call C
  assign_null : Call C
  assign_bool : Bool → Call C
  assign_int : ℤ → Call C
  assign_float : ℕ → Call C
  assign_string : Bytes → Call C
  assign_bytes : Bytes → Call C
  assign_link : Link C → Call C
  assign_node : Node C → Call C

-- The assemblers of the package mixins, which is not part of this repository: mixins.MapAssembler,
-- mixins.ListAssembler, mixins.BytesAssembler and so on. They have no state.
abbrev pub AssemblerMixins : Type 0 → Type 0
AssemblerMixins C = Kind → Call C → Outcome (Unit {0})

-- A method that only calls its mixin, whose arguments it sets to zero values.
abbrev pub forwarded : {C : Type 0} → Call C → Call C
forwarded (Call.begin_map n) = Call.begin_map (pos 0)
forwarded (Call.begin_list n) = Call.begin_list (pos 0)
forwarded (Call.assign_bool b) = Call.assign_bool false
forwarded (Call.assign_int i) = Call.assign_int (pos 0)
forwarded (Call.assign_float x) = Call.assign_float 0
forwarded (Call.assign_string s) = Call.assign_string []
forwarded (Call.assign_bytes b) = Call.assign_bytes []
forwarded (Call.assign_link l) = Call.assign_link nil
forwarded c = c

abbrev pub refused {ℓ} :
    {C : Type 0} {A : Type ℓ} → (Call C → Outcome (Unit {0})) → Call C → A → Outcome A
refused mixin c a = do mixin (forwarded c); ok a

-- ipldsch_minima.go: `_ErrorThunkAssembler`
pub record ErrorThunkAssembler : Type 0 where
  pub e : Error

unfoldable pub thunk_call : {C : Type 0} → ErrorThunkAssembler → Call C → Outcome (Unit {0})
thunk_call ea c = err ea.e
