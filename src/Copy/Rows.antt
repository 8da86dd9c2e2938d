-- ===== src/Copy/Rows.antt =====
-- AssignNode of the PBLinks assembler, on lists whose items are views of links.
use go_codec_dagpb.Common.{
  ℕ, ◌≡◌, refl, ap, ◌∙◌, Option, none, some, List, [], ◌∷◌, ◌++◌, map, append_assoc, ℤ, Bytes,
}
use go_codec_dagpb.Outcome.{ok, ◌>>=◌}
use go_codec_dagpb.Schema.{
  Maybe, LaState, PbLink, cid_link, zero_link, hash_key, name_key, tsize_key,
}
use go_codec_dagpb.Node.{Node, Typed, Items, Entries}
use go_codec_dagpb.Message.{LinkValue, link_of}
use go_codec_dagpb.Assembler.Link
use go_codec_dagpb.Assembler.Link.{LinkAssembler}
use go_codec_dagpb.Assembler.List as LinkList
use go_codec_dagpb.Assembler.List.{ListAssembler}
use go_codec_dagpb.Unmarshal.Row.{finished_row}
use go_codec_dagpb.Unmarshal.Phase.{last_of}

module _ {C : Type 0} where
  -- The row assembler after AssembleValue, where the row before it wrote field `f` last.
  abbrev begun : ℕ → LinkAssembler C
  begun f = record Link.zero_assembler { w = some zero_link; f = f }

  abbrev after : List (PbLink C) → LinkValue C → ListAssembler C
  after x l = record { x = x; m = Maybe.absent; state = LaState.mid_value; va = finished_row l }

  abbrev pub copied : List (PbLink C) → ℕ → ListAssembler C
  copied x f = record {
    x = x;
    m = Maybe.value;
    state = LaState.finished;
    va = record Link.zero_assembler { f = f };
  }

  -- A map of the data model with the fields of a link.
  abbrev name_entry : Option Bytes → Entries C → Entries C
  name_entry none es = es
  name_entry (some n) es = Entries.entry (Node.string name_key) (Node.string n) es

  abbrev tsize_entry : Option ℤ → Entries C
  tsize_entry none = Entries.end
  tsize_entry (some i) = Entries.entry (Node.string tsize_key) (Node.int i) Entries.end

  abbrev pub plain_link : LinkValue C → Node C
  plain_link l = Node.map (
      Entries.entry (Node.string hash_key) (Node.link (cid_link l.hash))
        (name_entry l.name (tsize_entry l.tsize)))

  abbrev pub repr_link : LinkValue C → Node C
  repr_link l = Node.typed (Typed.pb_link_repr (link_of l))

  abbrev pub Copies : (LinkValue C → Node C) → Type 0
  Copies view =
      (l : LinkValue C) (f : ℕ) → Link.assign_node (view l) (begun f) ≡ ok (finished_row l)

  pub plain_link-Copies : Copies plain_link
  unfolding Link.assign_node
  plain_link-Copies l f = go l.hash l.name l.tsize
    where
      go :
          (c : C) (n : Option Bytes) (t : Option ℤ)
          → let l : LinkValue C = record { hash = c; name = n; tsize = t } in
            Link.assign_node (plain_link l) (begun f) ≡ ok (finished_row l)
      go c none none = refl
      go c none (some t) = refl
      go c (some n) none = refl
      go c (some n) (some t) = refl

  pub repr_link-Copies : Copies repr_link
  unfolding Link.assign_node
  repr_link-Copies l f = go l.hash l.name l.tsize
    where
      go :
          (c : C) (n : Option Bytes) (t : Option ℤ)
          → let l : LinkValue C = record { hash = c; name = n; tsize = t } in
            Link.assign_node (repr_link l) (begun f) ≡ ok (finished_row l)
      go c none none = refl
      go c none (some t) = refl
      go c (some n) none = refl
      go c (some n) (some t) = refl

  finish-after :
      (x : List (PbLink C)) (l : LinkValue C)
      → LinkList.finish (after x l) ≡ ok (copied (x ++ link_of l ∷ []) (last_of l))
  unfolding LinkList.finish
  finish-after x l = refl

  abbrev last_from : LinkValue C → List (LinkValue C) → LinkValue C
  last_from l [] = l
  last_from l (l' ∷ ls) = last_from l' ls

  abbrev pub last_field : List (LinkValue C) → ℕ
  last_field [] = 0
  last_field (l ∷ ls) = last_of (last_from l ls)

  -- A list iterator over links, each seen by `view`.
  abbrev pub rows_of : (LinkValue C → Node C) → List (LinkValue C) → Items C
  rows_of view [] = Items.last
  rows_of view (l ∷ ls) = Items.item (view l) (rows_of view ls)

  module _ (view : LinkValue C → Node C) (copies : Copies view) where
    assign_items-after :
        (ls : List (LinkValue C)) (x : List (PbLink C)) (l : LinkValue C)
        → (LinkList.assign_items (rows_of view ls) (after x l) >>= LinkList.finish)
          ≡ ok (copied (x ++ map link_of (l ∷ ls)) (last_of (last_from l ls)))
    unfolding LinkList.assign_items LinkList.on_row
    assign_items-after [] x l = finish-after x l
    assign_items-after (l' ∷ ls) x l = rw (copies l' (last_of l)) (
        assign_items-after ls (x ++ link_of l ∷ []) l'
        ∙ ap (λ y. ok (copied y (last_of (last_from l' ls)))) (append_assoc x _ _))

    pub assign_items-rows :
        (ls : List (LinkValue C))
        → (LinkList.assign_items (rows_of view ls) LinkList.new_builder >>= LinkList.finish)
          ≡ ok (copied (map link_of ls) (last_field ls))
    unfolding LinkList.assign_items LinkList.on_row LinkList.new_builder LinkList.finish
    assign_items-rows [] = refl
    assign_items-rows (l ∷ ls) = rw (copies l 0) (assign_items-after ls [] l)
