-- ===== src/Refines/RootSteps.antt =====
-- The states of the PBNode assembler by the fields that are set, and what its methods do there.
use Prim.Native.Nat.{bit_and}
use go_codec_dagpb.Common.{
  ℕ, ◌+◌, ◌≡◌, refl, Bytes, true, false, Option, none, some, List, [], ◌==◌, not, arith,
  if◌then◌else◌,
}
use go_codec_dagpb.Outcome.{Outcome, ok, err, invalid_key, repeated_key}
use go_codec_dagpb.Schema.{Maybe, MaState, LaState, PbLink}
use go_codec_dagpb.Message.{field_of}
use go_codec_dagpb.Assembler.Link
use go_codec_dagpb.Assembler.List.{ListAssembler}
use go_codec_dagpb.Assembler.Root
use go_codec_dagpb.Assembler.Root.{RootAssembler, Child, bit, child_of, child_key, index_of}
use go_codec_dagpb.Reference.NodeFields.{Fields, has}
use go_codec_dagpb.Refines.LinkSteps.{bit_if, flip}

module _ {C : Type 0} where
  abbrev bits : Fields C → ℕ
  bits fs = bit_if 1 fs.links + bit_if 2 fs.bytes

  abbrev pub list_at : Maybe → List (PbLink C) → LaState → ℕ → ListAssembler C
  list_at m ls st f = record {
    x = ls;
    m = m;
    state = st;
    va = record Link.zero_assembler { f = f };
  }

  -- The list assembler of Links while it is not at work.
  pub data Idle : Option (List (PbLink C)) → ListAssembler C → Type 0 where
    unused : Idle none (list_at Maybe.absent [] LaState.initial 0)
    used :
        (ls : List (PbLink C)) (st : LaState) (f : ℕ)
        → Idle (some ls) (list_at Maybe.absent ls st f)

  -- Between two entries: `f` is the number of the field that was last at work.
  abbrev pub resting : Maybe → ℕ → Fields C → ListAssembler C → RootAssembler C
  resting m f fs l = record {
    bytes = field_of [] fs.bytes;
    m = m;
    state = MaState.initial;
    s = bits fs;
    f = f;
    links = l;
    links_w = false;
  }

  abbrev pub holding_links : Maybe → Fields C → ListAssembler C → RootAssembler C
  holding_links m fs l = record (resting m 0 fs l) { state = MaState.mid_value; links_w = true }

  abbrev pub holding_bytes : Maybe → Fields C → ListAssembler C → RootAssembler C
  holding_bytes m fs l = record (resting m 1 fs l) { state = MaState.mid_value }

  -- The assembler is between two entries, or a value has not been tidied away.
  pub data At (m : Maybe) (fs : Fields C) : RootAssembler C → Type 0 where
    rests : (f : ℕ) (l : ListAssembler C) → Idle fs.links l → At m fs (resting m f fs l)
    holds_links :
        (ls : List (PbLink C)) (st : LaState) (f : ℕ)
        → fs.links ≡ some ls
        → At m fs (holding_links m fs (list_at Maybe.value ls st f))
    holds_bytes :
        (b : Bytes) (l : ListAssembler C)
        → Idle fs.links l
        → fs.bytes ≡ some b
        → At m fs (holding_bytes m fs l)

  abbrev pub keyed : Maybe → ℕ → Fields C → ListAssembler C → RootAssembler C
  keyed m f fs l = record (resting m f fs l) { state = MaState.mid_key }

  pub assemble_key-At :
      (m : Maybe) (fs : Fields C) (a : RootAssembler C)
      → At m fs a
      → (f : ℕ) × (l : ListAssembler C) × Idle fs.links l
        × (Root.assemble_key a ≡ ok (keyed m f fs l))
  unfolding Root.assemble_key
  assemble_key-At m fs a (rests f l i) = (f, l, i, refl)
  assemble_key-At m fs a (holds_links ls st f e) =
      (0, list_at Maybe.absent ls st f, rw e (used ls st f), refl)
  assemble_key-At m fs a (holds_bytes b l i e) = (1, l, i, rw (e, field_of) refl)

  -- A field's bit is clear in `s` while the field is not set.
  pub clear : (c : Child) (fs : Fields C) → (bit_and (bits fs) (bit c) == 0) ≡ not (has c fs)
  clear c fs = go c fs.links fs.bytes
    where
      go :
          (c : Child) (ls : Option (List (PbLink C))) (d : Option Bytes)
          → let fs : Fields C = record { links = ls; bytes = d } in
            (bit_and (bits fs) (bit c) == 0) ≡ not (has c fs)
      go c none none = ground (arith)
      go c none (some d) = ground (arith)
      go c (some ls) none = ground (arith)
      go c (some ls) (some d) = ground (arith)

  -- `c` was claimed, and waits for its value.
  abbrev pub claimed : Maybe → MaState → Child → Fields C → ListAssembler C → RootAssembler C
  claimed m st c fs l = record (resting m (index_of c) fs l) { s = bits fs + bit c; state = st }

  -- The child assembler of `c` is out.
  abbrev pub open_at : Maybe → Child → Fields C → ListAssembler C → RootAssembler C
  open_at m Child.links fs l = record (claimed m MaState.mid_value Child.links fs l) {
    links_w = true;
  }
  open_at m Child.bytes fs l = claimed m MaState.mid_value Child.bytes fs l

  -- A claim succeeds for a field that is not set.
  abbrev pub claim_at :
      Maybe
      → MaState
      → Option Child
      → Bytes
      → Fields C
      → ListAssembler C
      → Outcome (RootAssembler C)
  claim_at m st none k fs l = err (invalid_key k)
  claim_at m st (some c) k fs l =
      if has c fs then err (repeated_key (child_key c)) else ok (claimed m st c fs l)

  pub claim-resting :
      (m : Maybe) (st st₀ : MaState) (c : Child) (f : ℕ) (fs : Fields C) (l : ListAssembler C)
      → Root.claim st c (record (resting m f fs l) { state = st₀ })
        ≡ (if has c fs then err (repeated_key (child_key c)) else ok (claimed m st c fs l))
  unfolding Root.claim
  claim-resting m st st₀ c f fs l = rw (clear c fs) (flip (has c fs) _ _)

  pub assign_key-resting :
      (m : Maybe) (k : Bytes) (f : ℕ) (fs : Fields C) (l : ListAssembler C)
      → Root.assign_key k (keyed m f fs l) ≡ claim_at m MaState.expect_value (child_of k) k fs l
  unfolding Root.assign_key
  assign_key-resting m k f fs l = go (child_of k)
    where
      go :
          (o : Option Child)
          → (elim o [
            | none ↦ err (invalid_key k)
            | some c ↦ Root.claim MaState.expect_value c (keyed m f fs l)
          ])
            ≡ claim_at m MaState.expect_value o k fs l
      go none = refl
      go (some c) = claim-resting m MaState.expect_value MaState.mid_key c f fs l

  pub assemble_value-claimed :
      (m : Maybe) (c : Child) (fs : Fields C) (l : ListAssembler C)
      → Root.assemble_value (claimed m MaState.expect_value c fs l) ≡ ok (c, open_at m c fs l)
  unfolding Root.assemble_value
  assemble_value-claimed m Child.links fs l = refl
  assemble_value-claimed m Child.bytes fs l = refl
