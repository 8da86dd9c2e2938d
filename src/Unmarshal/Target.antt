-- ===== src/Unmarshal/Target.antt =====
-- What the decoder asks of the ipld.NodeAssembler that it is given: the calls on the map assembler
-- of the node (`ma`), on the list assembler of its Links (`links`) and on the map assembler of the
-- link under construction (`curLink`). `S` is the state behind these handles.
use go_codec_dagpb.Common.{ℤ, Bytes, pos}
use go_codec_dagpb.Outcome.{Outcome, err, wrong_kind, ◌>>=◌}
use go_codec_dagpb.Schema.{
  Link as IpldLink, cid_link, hash_key, name_key, tsize_key, links_key, data_key,
}
use go_codec_dagpb.Assembler.Scalar.{assign_bytes, assign_int, assign_string, assign_link}
use go_codec_dagpb.Assembler.Link
use go_codec_dagpb.Assembler.Link.{LinkAssembler}
use go_codec_dagpb.Assembler.List
use go_codec_dagpb.Assembler.Root
use go_codec_dagpb.Assembler.Root.{RootAssembler}

pub record Target (C S : Type 0) : Type 0 where
  -- `na.BeginMap(2)`
  pub begin_map : S → Outcome S
  -- `ma.AssembleKey().AssignString(k)`
  pub key : Bytes → S → Outcome S
  -- `ma.AssembleValue().AssignBytes(b)`
  pub value_bytes : Bytes → S → Outcome S
  -- `ma.AssembleValue().BeginList(0)`
  pub value_list : S → Outcome S
  -- `links.AssembleValue().BeginMap(3)`
  pub row : S → Outcome S
  -- `curLink.AssembleKey().AssignString(k)`
  pub row_key : Bytes → S → Outcome S
  -- `curLink.AssembleValue().AssignLink(l)`, `.AssignString(s)`, `.AssignInt(i)`
  pub row_link : IpldLink C → S → Outcome S
  pub row_string : Bytes → S → Outcome S
  pub row_int : ℤ → S → Outcome S
  -- `curLink.Finish()`, `links.Finish()`, `ma.Finish()`
  pub row_finish : S → Outcome S
  pub list_finish : S → Outcome S
  pub finish : S → Outcome S

-- The fields that the decoder assigns, a key and its value.
module _ {C S : Type 0} (t : Target C S) where
  unfoldable pub put_hash : C → S → Outcome S
  put_hash c s = do s₁ ← t.row_key hash_key s; t.row_link (cid_link c) s₁

  unfoldable pub put_name : Bytes → S → Outcome S
  put_name n s = do s₁ ← t.row_key name_key s; t.row_string n s₁

  unfoldable pub put_tsize : ℤ → S → Outcome S
  put_tsize i s = do s₁ ← t.row_key tsize_key s; t.row_int i s₁

  unfoldable pub put_data : Bytes → S → Outcome S
  put_data b s = do s₁ ← t.key data_key s; t.value_bytes b s₁

  -- The Links field, with no link in it yet.
  unfoldable pub begin_links : S → Outcome S
  begin_links s = do s₁ ← t.key links_key s; t.value_list s₁

-- The builder of `Type.PBNode`. A method that the type's kind has no use for is an error.
module _ {C : Type 0} where
  link_key : Bytes → LinkAssembler C → Outcome (LinkAssembler C)
  unfolding Link.assemble_key Link.assign_key
  link_key k a = do a' ← Link.assemble_key a; Link.assign_key k a'

  link_link : IpldLink C → LinkAssembler C → Outcome (LinkAssembler C)
  unfolding Link.assemble_value Link.on_hash assign_link
  link_link l a = do
    (c, a') ← Link.assemble_value a
    elim c [ Link.Child.hash ↦ Link.on_hash (assign_link l) a' | _ ↦ err wrong_kind ]

  link_string : Bytes → LinkAssembler C → Outcome (LinkAssembler C)
  unfolding Link.assemble_value Link.on_name assign_string
  link_string s a = do
    (c, a') ← Link.assemble_value a
    elim c [ Link.Child.name ↦ Link.on_name (assign_string s) a' | _ ↦ err wrong_kind ]

  link_int : ℤ → LinkAssembler C → Outcome (LinkAssembler C)
  unfolding Link.assemble_value Link.on_tsize assign_int
  link_int i a = do
    (c, a') ← Link.assemble_value a
    elim c [ Link.Child.tsize ↦ Link.on_tsize (assign_int i) a' | _ ↦ err wrong_kind ]

  root_key : Bytes → RootAssembler C → Outcome (RootAssembler C)
  unfolding Root.assemble_key Root.assign_key
  root_key k a = do a' ← Root.assemble_key a; Root.assign_key k a'

  root_bytes : Bytes → RootAssembler C → Outcome (RootAssembler C)
  unfolding Root.assemble_value Root.on_bytes assign_bytes
  root_bytes b a = do
    (c, a') ← Root.assemble_value a
    elim c [ Root.Child.bytes ↦ Root.on_bytes (assign_bytes b) a' | _ ↦ err wrong_kind ]

  root_list : RootAssembler C → Outcome (RootAssembler C)
  unfolding Root.assemble_value Root.on_links List.begin_list
  root_list a = do
    (c, a') ← Root.assemble_value a
    elim c [ Root.Child.links ↦ Root.on_links (List.begin_list (pos 0)) a' | _ ↦ err wrong_kind ]

  root_row : RootAssembler C → Outcome (RootAssembler C)
  unfolding Root.on_links List.assemble_value List.on_row Link.begin_map
  root_row = Root.on_links λ l. do l' ← List.assemble_value l; List.on_row Link.begin_map l'

  on_row :
      (LinkAssembler C → Outcome (LinkAssembler C)) → RootAssembler C → Outcome (RootAssembler C)
  unfolding Root.on_links List.on_row
  on_row op = Root.on_links (List.on_row op)

  root_list_finish : RootAssembler C → Outcome (RootAssembler C)
  unfolding Root.on_links List.finish
  root_list_finish = Root.on_links List.finish

  unfoldable pub node_builder : Target C (RootAssembler C)
  unfolding root_key root_bytes root_list root_row on_row root_list_finish link_key link_link
      link_string link_int Link.finish Root.begin_map Root.finish
  node_builder = record {
    begin_map = Root.begin_map;
    key = root_key;
    value_bytes = root_bytes;
    value_list = root_list;
    row = root_row;
    row_key = λ k. on_row (link_key k);
    row_link = λ l. on_row (link_link l);
    row_string = λ s. on_row (link_string s);
    row_int = λ i. on_row (link_int i);
    row_finish = on_row Link.finish;
    list_finish = root_list_finish;
    finish = Root.finish;
  }
