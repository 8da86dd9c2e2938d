-- ===== src/Unmarshal/Phase.antt =====
-- The states that the builder of a PBNode takes while `DecodeBytes` runs, between two of its rounds.
use go_codec_dagpb.Common.{
  ℕ, ◌+◌, ◌≡◌, refl, Bytes, Option, none, some, List, [], ◌∷◌, ◌++◌, map, true, false,
}
use go_codec_dagpb.Outcome.{ok}
use go_codec_dagpb.Schema.{Maybe, MaState, LaState, PbLink}
use go_codec_dagpb.Message.{LinkValue, field_of, link_of, node_of}
use go_codec_dagpb.Assembler.Link
use go_codec_dagpb.Assembler.Link.{LinkAssembler}
use go_codec_dagpb.Assembler.List.{ListAssembler}
use go_codec_dagpb.Assembler.Root
use go_codec_dagpb.Assembler.Root.{RootAssembler}
use go_codec_dagpb.Unmarshal.Target.{node_builder, put_data, begin_links}
use go_codec_dagpb.Unmarshal.Row.{row_state, finished_row, in_row, bit_of, last_index}

module _ {C : Type 0} where
  abbrev fresh_list : ListAssembler C
  fresh_list = record {
    x = [];
    m = Maybe.absent;
    state = LaState.initial;
    va = Link.zero_assembler;
  }

  -- After BeginMap.
  abbrev pub start : RootAssembler C
  start = record {
    bytes = field_of [] none;
    m = Maybe.mid_value;
    state = MaState.initial;
    s = 0;
    f = 0;
    links = fresh_list;
    links_w = false;
  }

  -- Data was assigned, with no links before it.
  abbrev pub data_only : Bytes → RootAssembler C
  data_only b = record {
    bytes = field_of [] (some b);
    m = Maybe.mid_value;
    state = MaState.mid_value;
    s = 2;
    f = 1;
    links = fresh_list;
    links_w = false;
  }

  -- Links has begun, and has no row.
  abbrev pub opened : Option Bytes → RootAssembler C
  opened d = record {
    bytes = field_of [] d;
    m = Maybe.mid_value;
    state = MaState.mid_value;
    s = 1 + bit_of 2 d;
    f = 0;
    links = record fresh_list { m = Maybe.mid_value };
    links_w = true;
  }

  -- The row assembler between two rows, after the row `f` last wrote field number `f`.
  abbrev between : ℕ → LinkAssembler C
  between f = record Link.zero_assembler { f = f }

  abbrev finished_list : List (PbLink C) → Maybe → ℕ → ListAssembler C
  finished_list x m f = record { x = x; m = m; state = LaState.finished; va = between f }

  -- Links is finished.
  abbrev pub closed : Option Bytes → List (PbLink C) → ℕ → RootAssembler C
  closed d x f = record {
    bytes = field_of [] d;
    m = Maybe.mid_value;
    state = MaState.mid_value;
    s = 1 + bit_of 2 d;
    f = 0;
    links = finished_list x Maybe.value f;
    links_w = true;
  }

  -- Data was assigned after the links.
  abbrev pub data_after : List (PbLink C) → ℕ → Bytes → RootAssembler C
  data_after x f b = record {
    bytes = field_of [] (some b);
    m = Maybe.mid_value;
    state = MaState.mid_value;
    s = 3;
    f = 1;
    links = finished_list x Maybe.absent f;
    links_w = false;
  }

  -- Which field a row wrote last.
  abbrev pub last_of : LinkValue C → ℕ
  last_of l = last_index 0 (some l.hash) l.name l.tsize

  pub begin_map-new : node_builder.begin_map Root.new_builder ≡ ok start
  unfolding node_builder Root.new_builder
  begin_map-new = refl

  pub put_data-start : (b : Bytes) → put_data node_builder b start ≡ ok (data_only b)
  unfolding node_builder put_data
  put_data-start b = refl

  pub begin_links-start : begin_links node_builder start ≡ ok (opened none)
  unfolding node_builder begin_links
  begin_links-start = refl

  pub begin_links-data_only :
      (b : Bytes) → begin_links node_builder (data_only b) ≡ ok (opened (some b))
  unfolding node_builder begin_links
  begin_links-data_only b = refl

  pub row-opened :
      (d : Option Bytes)
      → node_builder.row (opened d) ≡ ok (in_row d [] (row_state 0 none none none))
  unfolding node_builder
  row-opened d = refl

  pub row-in_row :
      (d : Option Bytes) (x : List (PbLink C)) (l : LinkValue C)
      → node_builder.row (in_row d x (finished_row l))
        ≡ ok (in_row d (x ++ link_of l ∷ []) (row_state (last_of l) none none none))
  unfolding node_builder
  row-in_row d x l = refl

  pub list_finish-in_row :
      (d : Option Bytes) (x : List (PbLink C)) (l : LinkValue C)
      → node_builder.list_finish (in_row d x (finished_row l))
        ≡ ok (closed d (x ++ link_of l ∷ []) (last_of l))
  unfolding node_builder
  list_finish-in_row d x l = refl

  pub list_finish-opened :
      (d : Option Bytes) → node_builder.list_finish (opened d) ≡ ok (closed d [] 0)
  unfolding node_builder
  list_finish-opened d = refl

  pub put_data-closed :
      (x : List (PbLink C)) (f : ℕ) (b : Bytes)
      → put_data node_builder b (closed none x f) ≡ ok (data_after x f b)
  unfolding node_builder put_data
  put_data-closed x f b = refl

  -- Build after Finish.
  pub finish-closed :
      (d : Option Bytes) (ls : List (LinkValue C)) (f : ℕ)
      → (a : RootAssembler C) × (node_builder.finish (closed d (map link_of ls) f) ≡ ok a)
        × (Root.build a ≡ ok (node_of (record { links = ls; bytes = d })))
  unfolding node_builder Root.build
  finish-closed none ls f = (_, refl, refl)
  finish-closed (some b) ls f = (_, refl, refl)

  pub finish-data_after :
      (ls : List (LinkValue C)) (f : ℕ) (b : Bytes)
      → (a : RootAssembler C) × (node_builder.finish (data_after (map link_of ls) f b) ≡ ok a)
        × (Root.build a ≡ ok (node_of (record { links = ls; bytes = some b })))
  unfolding node_builder Root.build
  finish-data_after ls f b = (_, refl, refl)
