-- ===== src/Unmarshal/NodeTotal.antt =====
-- `DecodeBytes` into the builder of a PBNode, for every byte string.
use go_codec_dagpb.Common.{
  ℕ, zero, suc, ◌<◌, ◌≤◌, ◌≡◌, refl, Bytes, Bool, true, false, Option, none, some, [], ◌∷◌, ◌++◌,
  map, length, arith, not, ◌==◌,
}
use go_codec_dagpb.Outcome.{Outcome, ok, Returns, node_wire_type, ◌>>=◌, bind_assoc}
use go_codec_dagpb.Outcome.Follows.{
  Follows, values, errors, Follows-bind, Follows-same, Follows-reject_if, Follows-if,
  Follows-Returns, Follows-build_as,
}
use go_codec_dagpb.Parser.Block.{
  Phase, fresh, data_first, in_links, data_last, row, message_at, data_part, link_part, part,
  parse_rest, parse_block,
}
use go_codec_dagpb.Message.{Message, link_of, node_of}
use go_codec_dagpb.Wire.{Protowire, IsReader, Cids}
use go_codec_dagpb.Assembler.Root
use go_codec_dagpb.Assembler.Root.{RootAssembler}
use go_codec_dagpb.Unmarshal.Target.{node_builder}
use go_codec_dagpb.Unmarshal.Node.{
  Flags, no_flags, data_field, links_field, node_round, node_loop, close, decode_bytes,
}
use go_codec_dagpb.Unmarshal.Row.{finished_row, in_row, finish_row}
use go_codec_dagpb.Unmarshal.Phase.{
  start, data_only, data_after, last_of, begin_map-new, put_data-start, begin_links-start,
  begin_links-data_only, row-opened, row-in_row, list_finish-in_row, list_finish-opened,
  put_data-closed, finish-closed, finish-data_after,
}
use go_codec_dagpb.Unmarshal.LinkTotal.{
  consumed-Returns, tag_InInput, bytes_InInput, unmarshal_link-parse_link,
}
use mathlib.Core.List.{map-append}

abbrev has_data : Option Bytes → Bool
has_data none = false
has_data (some b) = true

module _ {C : Type 0} where
  abbrev state_at : Phase C → RootAssembler C
  state_at fresh = start
  state_at (data_first b) = data_only b
  state_at (in_links d ls l) = in_row d (map link_of ls) (finished_row l)
  state_at (data_last ls l b) = data_after (map link_of ls ++ link_of l ∷ []) (last_of l) b

  abbrev flags_at : Phase C → Flags
  flags_at fresh = no_flags
  flags_at (data_first b) = record { have_data = true; have_links = false; links_open = false }
  flags_at (in_links d ls l) = record {
    have_data = has_data d;
    have_links = true;
    links_open = true;
  }
  flags_at (data_last ls l b) = record { have_data = true; have_links = true; links_open = false }

  module _ (p : Protowire) (r : IsReader p) (k : Cids C) where
    -- The flags and the builder are those of the parser's phase.
    abbrev Round : Bytes → Bytes × Flags × RootAssembler C → Bytes × Phase C → Type 0
    Round b (rest, fl, s) (rest', ph) =
        (length rest < length b) × (rest ≡ rest') × (fl ≡ flags_at ph) × (s ≡ state_at ph)

    shorter :
        (b c : Bytes) {m : Outcome (Bytes × Flags × RootAssembler C)}
        {n : Outcome (Bytes × Phase C)}
        → length c < length b
        → Follows (Round c) m n
        → Follows (Round b) m n
    shorter b c lt (values (g, e, fl, s)) = values (omega arith, e, fl, s)
    shorter b c lt errors = errors

    data_field-part :
        (b : Bytes) (ph : Phase C)
        → Follows
            (Round b)
            (data_field p k node_builder b (flags_at ph) (state_at ph))
            (data_part p k b ph)
    unfolding data_field
    data_field-part b fresh =
        Follows-same (consumed-Returns _ b (bytes_InInput p r b))
          λ rest g. rw put_data-start (values (g, refl, refl, refl))
    data_field-part b (in_links none ls l) =
        Follows-same (consumed-Returns _ b (bytes_InInput p r b))
          λ rest g. rw list_finish-in_row (rw put_data-closed (values (g, refl, refl, refl)))
    data_field-part b (in_links (some d) ls l) = errors
    data_field-part b (data_first d) = errors
    data_field-part b (data_last ls l d) = errors

    links_field-part :
        (b : Bytes) (ph : Phase C)
        → Follows
            (Round b)
            (links_field p k node_builder b (flags_at ph) (state_at ph))
            (link_part p k b ph)
    unfolding links_field
    links_field-part b fresh = Follows-same (consumed-Returns _ b (bytes_InInput p r b)) λ rest g.
        rw begin_links-start (
          rw row-opened (
            Follows-bind (unmarshal_link-parse_link p r k none [] 0 _)
              λ s l e. rw e (rw (finish_row none [] 0 l) (values (g, refl, refl, refl)))))
    links_field-part b (data_first d) =
        Follows-same (consumed-Returns _ b (bytes_InInput p r b)) λ rest g.
          rw begin_links-data_only (
            rw row-opened (
              Follows-bind (unmarshal_link-parse_link p r k (some d) [] 0 _)
                λ s l e. rw e (rw (finish_row (some d) [] 0 l) (values (g, refl, refl, refl)))))
    links_field-part b (in_links d ls l) =
        Follows-same (consumed-Returns _ b (bytes_InInput p r b)) λ rest g. rw row-in_row (
          Follows-bind (unmarshal_link-parse_link p r k d _ (last_of l) _) λ s l' e.
            rw e (rw (finish_row d _ (last_of l) l') (values (g, refl, refl, rw map-append))))
    links_field-part b (data_last ls l d) =
        Follows-same (consumed-Returns _ b (bytes_InInput p r b)) λ rest g. errors

    node_round-part :
        (b : Bytes) (ph : Phase C)
        → Follows
            (Round b)
            (node_round p k node_builder b (flags_at ph) (state_at ph))
            (part p k b ph)
    unfolding node_round part
    node_round-part b ph = Follows-same (consumed-Returns _ b (tag_InInput p r b)) λ rest g.
        let num = (p.consume_tag b).0 in
        let typ = (p.consume_tag b).1 in
        Follows-reject_if (not (typ == 2)) (node_wire_type typ) (
          Follows-if (num == 1) (shorter b rest g (data_field-part rest ph))
            (Follows-if (num == 2) (shorter b rest g (links_field-part rest ph)) errors))

    -- Build gives the node of the message.
    abbrev pub Builds : RootAssembler C → Message C → Type 0
    Builds a m = Root.build a ≡ ok (node_of m)

    close-message_at :
        (ph : Phase C)
        → Follows Builds (close p k node_builder (flags_at ph) (state_at ph)) (ok (message_at ph))
    unfolding close
    close-message_at fresh =
        let (a, e, built) = finish-closed {C = C} none [] 0 in
        rw begin_links-start (rw list_finish-opened (rw e (values built)))
    close-message_at (data_first b) =
        let (a, e, built) = finish-closed {C = C} (some b) [] 0 in
        rw begin_links-data_only (rw list_finish-opened (rw e (values built)))
    close-message_at (in_links d ls l) =
        let (a, e, built) = finish-closed d (ls ++ row l) (last_of l) in
        rw list_finish-in_row (rw (rw map-append at e) (values built))
    close-message_at (data_last ls l b) =
        let (a, e, built) = finish-data_after (ls ++ row l) (last_of l) b in
        rw (rw map-append at e) (values built)

    node_loop-parse_rest :
        (fuel : ℕ) (b : Bytes) (ph : Phase C)
        → length b ≤ fuel
        → Follows Builds
            (node_loop p k node_builder fuel b (flags_at ph) (state_at ph) >>= λ (fl, s).
              close p k node_builder fl s)
            (parse_rest p k fuel b ph)
    unfolding node_loop parse_rest
    node_loop-parse_rest fuel [] ph le = close-message_at ph
    node_loop-parse_rest zero (c ∷ cs) ph le = absurd (omega arith)
    node_loop-parse_rest (suc fuel) (c ∷ cs) ph le = rw bind_assoc (
        Follows-bind (node_round-part (c ∷ cs) ph) λ (rest, fl, s) (rest', ph') (lt, e, e', e'').
          rw (e', e'', ← e) (node_loop-parse_rest fuel rest ph' (omega arith)))

    decode_bytes-Builds :
        (src : Bytes)
        → Follows Builds (decode_bytes p k node_builder src Root.new_builder) (parse_block p k src)
    unfolding decode_bytes parse_block
    decode_bytes-Builds src =
        rw begin_map-new (node_loop-parse_rest (length src) src fresh (omega arith))

    -- On every byte string, DecodeBytes into a new builder of a PBNode and then Build give the node
    -- of the message that the parser gives for the bytes, or the error that it gives.
    pub decode_bytes-parse_block :
        (src : Bytes)
        → (do builder ← decode_bytes p k node_builder src Root.new_builder; Root.build builder)
          ≡ (do m ← parse_block p k src; ok (node_of m))
    decode_bytes-parse_block src = Follows-build_as node_of (decode_bytes-Builds src) λ a m e. e

    -- On every byte string, DecodeBytes into a new builder of a PBNode returns. Unless that is an
    -- error, Build then gives the node of some message: every link has a CID, and every optional
    -- field is absent or has a value.
    pub decode_bytes-Returns :
        (src : Bytes)
        → Returns
            (λ a. (m : Message C) × (Root.build a ≡ ok (node_of m)))
            (decode_bytes p k node_builder src Root.new_builder)
    decode_bytes-Returns src = Follows-Returns (decode_bytes-Builds src) λ a m e. (m, e)
