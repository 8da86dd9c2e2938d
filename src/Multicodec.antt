-- ===== src/Multicodec.antt =====
-- multicodec.go: the registration of the codec under 0x70, the prototype chooser for links to DAG-PB
-- blocks, and the deprecated names of Decode and Encode.
pub mod Registered
use go_codec_dagpb.Common.{ℕ, ◌==◌, ◌≡◌, Bytes, Option, some, if◌then◌else◌}
use go_codec_dagpb.Outcome.{Outcome, ok}
use go_codec_dagpb.Schema.{Link, cid_link}
use go_codec_dagpb.Node.{Node}
use go_codec_dagpb.Wire.{Protowire, Cids}
use go_codec_dagpb.Unmarshal.Target.{Target}
use go_codec_dagpb.Unmarshal.Node.{Reader, decode}
use go_codec_dagpb.Marshal.Append.{encode}

-- `X` stands for ipld.LinkContext, `P` for ipld.NodePrototype, with `pb_node` for Type.PBNode.
module _ {C P X : Type 0} (k : Cids C) (pb_node : P) where
  -- AddSupportToChooser
  unfoldable pub add_support_to_chooser : (Link C → X → Outcome P) → Link C → X → Outcome P
  add_support_to_chooser existing (cid_link c) ctx =
      if k.codec c == 0x70 then ok pb_node else existing (cid_link c) ctx
  add_support_to_chooser existing lnk ctx = existing lnk ctx

-- ipld.Decoder on an assembler with the state `S`, and ipld.Encoder, which calls Write of its writer:
-- a function on the state `W` of that writer, which also returns.
abbrev pub Decoder : Type 0 → Type 0
Decoder S = Reader → S → Outcome S

abbrev pub Encoder : Type 0 → Type 0 → Type 0
Encoder W C = Node C → (Bytes → W → W × Outcome (Unit {0})) → W → W × Outcome (Unit {0})

-- The registry of the package multicodec, which is not part of this repository.
pub record Registry (D E R : Type 0) : Type 0 where
  pub register_decoder : ℕ → D → R → R
  pub register_encoder : ℕ → E → R → R
  pub lookup_decoder : ℕ → R → Option D
  pub lookup_encoder : ℕ → R → Option E

-- Its documented behaviour: what was registered under a code is found under it, and the two kinds
-- are apart.
pub record IsRegistry {D E R : Type 0} (g : Registry D E R) : Type 0 where
  pub decoder_found :
      (code : ℕ) (d : D) (r : R) → g.lookup_decoder code (g.register_decoder code d r) ≡ some d
  pub encoder_found :
      (code : ℕ) (e : E) (r : R) → g.lookup_encoder code (g.register_encoder code e r) ≡ some e
  pub decoder_kept :
      (code code' : ℕ) (e : E) (r : R)
      → g.lookup_decoder code (g.register_encoder code' e r) ≡ g.lookup_decoder code r

module _ {C S : Type 0} (p : Protowire) (k : Cids C) (t : Target C S) where
  -- Decoder and Unmarshal, Encoder and Marshal.
  unfoldable pub decoder : Decoder S
  unfolding decode
  decoder r s = decode p k t r s

  unfoldable pub unmarshal : Decoder S
  unfolding decode
  unmarshal r s = decode p k t r s

  -- `init`
  unfoldable pub init : {W R : Type 0} → Registry (Decoder S) (Encoder W C) R → R → R
  unfolding decode encode
  init g r = g.register_encoder 0x70 (encode p k) (g.register_decoder 0x70 (decode p k t) r)

module _ {C W : Type 0} (p : Protowire) (k : Cids C) where
  unfoldable pub encoder : Encoder W C
  unfolding encode
  encoder node write w = encode p k node write w

  unfoldable pub marshal : Encoder W C
  unfolding encode
  marshal node write w = encode p k node write w
