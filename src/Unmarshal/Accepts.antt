-- ===== src/Unmarshal/Accepts.antt =====
-- The blocks that `DecodeBytes` accepts, and the messages that it reads in them.
use go_codec_dagpb.Common.{
  ◌≡◌, ◌↔◌, ◌∙◌, refl, sym, ap, pos, Bytes, Option, none, some, List, [], ◌∷◌, map,
}
use go_codec_dagpb.Outcome.{Outcome, ok, err, panic, stuck, ◌>>=◌}
use go_codec_dagpb.Outcome.AllOk.{AllOk-ok}
use go_codec_dagpb.Schema.{cid_link}
use go_codec_dagpb.Message.{LinkValue, Message, field_of, link_of, node_of}
use go_codec_dagpb.Wire.{Protowire, IsReader, Cids}
use go_codec_dagpb.Assembler.Root
use go_codec_dagpb.Unmarshal.Target.{node_builder}
use go_codec_dagpb.Unmarshal.Node.{decode_bytes}
use go_codec_dagpb.Unmarshal.NodeTotal.{decode_bytes-parse_block}
use go_codec_dagpb.Parser.Block.{parse_block}
use go_codec_dagpb.Parser.Grammar.{IsBlock}
use go_codec_dagpb.Parser.BlockSound.{parse_block-IsBlock}
use go_codec_dagpb.Parser.BlockComplete.{parse_block_complete}

field_of-inj {ℓ} : {A : Type ℓ} (z : A) (a b : Option A) → field_of z a ≡ field_of z b → a ≡ b
field_of-inj z none none e = refl
field_of-inj z none (some b) e = absurd (cc)
field_of-inj z (some a) none e = absurd (cc)
field_of-inj z (some a) (some b) e = ap (λ c. some c) (ap (λ f. f.v) e)

module _ {C : Type 0} where
  link_of-inj : (a b : LinkValue C) → link_of a ≡ link_of b → a ≡ b
  link_of-inj a b e =
      let hash : cid_link a.hash ≡ cid_link b.hash = ap (λ l. l.hash) e in
      let same : a.hash ≡ b.hash = cc in
      let names = field_of-inj [] a.name b.name (ap (λ l. l.name) e) in
      let sizes = field_of-inj (pos 0) a.tsize b.tsize (ap (λ l. l.tsize) e) in
      λ i. record { hash = same i; name = names i; tsize = sizes i }

  links_of-inj : (xs ys : List (LinkValue C)) → map link_of xs ≡ map link_of ys → xs ≡ ys
  links_of-inj [] [] e = refl
  links_of-inj [] (b ∷ ys) e = absurd (cc)
  links_of-inj (a ∷ xs) [] e = absurd (cc)
  links_of-inj (a ∷ xs) (b ∷ ys) e =
      let first : link_of a ≡ link_of b = cc in
      let others : map link_of xs ≡ map link_of ys = cc in
      let one = link_of-inj a b first in let all = links_of-inj xs ys others in λ i. one i ∷ all i

  -- A node holds one message at most.
  pub node_of-inj : (m m' : Message C) → node_of m ≡ node_of m' → m ≡ m'
  node_of-inj m m' e =
      let links = links_of-inj m.links m'.links (ap (λ n. n.links.x) e) in
      let bytes = field_of-inj [] m.bytes m'.bytes (ap (λ n. n.bytes) e) in
      λ i. record { links = links i; bytes = bytes i }

  ok_node-inj :
      (r : Outcome (Message C)) (m : Message C)
      → (do m ← r; ok (node_of m)) ≡ ok (node_of m)
      → r ≡ ok m
  ok_node-inj (ok m') m e =
      let same : node_of m' ≡ node_of m = cc in ap (λ x. ok x) (node_of-inj m' m same)
  ok_node-inj (err x) m e = absurd (cc)
  ok_node-inj (panic x) m e = absurd (cc)
  ok_node-inj stuck m e = absurd (cc)

  -- DecodeBytes into a new builder of a PBNode, and then Build, give the node of a message exactly
  -- where the bytes are a block of the grammar for that message: Data and then the links, or the
  -- links and then Data, Data optional; each link Hash, Name and Tsize in this order, Name and Tsize
  -- optional; and nothing else.
  pub decode_bytes-IsBlock :
      (p : Protowire) (r : IsReader p) (k : Cids C) (src : Bytes) (m : Message C)
      → ((do builder ← decode_bytes p k node_builder src Root.new_builder; Root.build builder)
          ≡ ok (node_of m))
        ↔ IsBlock p k src m
  decode_bytes-IsBlock p r k src m = (
    λ e.
        AllOk-ok (parse_block-IsBlock p k src)
          (ok_node-inj (parse_block p k src) m (sym (decode_bytes-parse_block p r k src) ∙ e)),
    λ is. decode_bytes-parse_block p r k src ∙ rw (parse_block_complete p r k src m is) refl,
  )
