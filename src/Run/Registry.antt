-- ===== src/Run/Registry.antt =====
-- A registry by association lists, and the registered codec on a message.
use go_codec_dagpb.Common.{
  ℕ, ◌≡◌, refl, Bytes, Option, none, some, List, [], ◌∷◌, ◌==◌, ==_refl, if◌then◌else◌,
}
use go_codec_dagpb.Outcome.{Outcome, ok, err, foreign}
use go_codec_dagpb.Message.{node_of}
use go_codec_dagpb.Node.{Node, Typed}
use go_codec_dagpb.Assembler.Root
use go_codec_dagpb.Assembler.Root.{RootAssembler}
use go_codec_dagpb.Marshal.Image.{image, sorted}
use go_codec_dagpb.Unmarshal.Target.{node_builder}
use go_codec_dagpb.Unmarshal.Node.{buffer, stream}
use go_codec_dagpb.Unmarshal.ReplayBuilder.{Yields}
use go_codec_dagpb.Multicodec.{Decoder, Encoder, Registry, IsRegistry, init}
use go_codec_dagpb.Multicodec.Registered.{init-registered}
use go_codec_dagpb.Run.Wire.{wire, wire-IsReader, wire-IsWriter, wire-IsCodec}
use go_codec_dagpb.Run.Cid.{Cid, cids}
use go_codec_dagpb.Run.Examples.{sample, sample-CanEncode}

abbrev find {ℓ} : {A : Type ℓ} → ℕ → List (ℕ × A) → Option A
find code [] = none
find code ((c, a) ∷ rest) = if c == code then some a else find code rest

abbrev D : Type 0
D = Decoder (RootAssembler Cid)

abbrev E : Type 0
E = Encoder (List Bytes) Cid

abbrev lists : Registry D E (List (ℕ × D) × List (ℕ × E))
lists = record {
  register_decoder = λ code d r. ((code, d) ∷ r.0, r.1);
  register_encoder = λ code e r. (r.0, (code, e) ∷ r.1);
  lookup_decoder = λ code r. find code r.0;
  lookup_encoder = λ code r. find code r.1;
}

lists-IsRegistry : IsRegistry lists
lists-IsRegistry = record {
  decoder_found = λ code d r. rw (==_refl code) refl;
  encoder_found = λ code e r. rw (==_refl code) refl;
  decoder_kept = λ code code' e r. refl;
}

-- A writer that keeps what it was given, and fails when it was given something before.
abbrev once : List Bytes → Outcome (Unit {0})
once [] = ok tt
once (b ∷ bs) = err (foreign 1)

abbrev write : Bytes → List Bytes → List Bytes × Outcome (Unit {0})
write b w = (b ∷ w, once w)

init-registered_example :
    (enc : E) × (dec : D) × (lists.lookup_encoder 0x70 (init wire cids node_builder lists ([], []))
      ≡ some enc)
    × (lists.lookup_decoder 0x70 (init wire cids node_builder lists ([], [])) ≡ some dec)
    × (enc (Node.typed (Typed.pb_node (node_of sample))) write []
        ≡ (image wire cids (sorted sample) ∷ [], ok tt))
    × Yields (sorted sample) (dec (buffer (image wire cids (sorted sample))) Root.new_builder)
    × Yields (sorted sample) (dec (stream (ok (image wire cids (sorted sample)))) Root.new_builder)
init-registered_example =
    init-registered wire cids wire-IsReader wire-IsWriter wire-IsCodec lists lists-IsRegistry
      ([], []) write [] sample sample-CanEncode
