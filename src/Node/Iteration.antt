-- ===== src/Node/Iteration.antt =====
-- What the iterators of this package's nodes yield.
use go_codec_dagpb.Common.{
  ℕ, zero, suc, ◌+◌, ◌<◌, ◌≤◌, ◌≡◌, refl, ap, ◌∙◌, Bool, true, false, List, [], ◌∷◌, length, drop,
  le→leb, lt→leb, arith,
}
use go_codec_dagpb.Outcome.{Outcome, ok}
use go_codec_dagpb.Schema.{PbLink, PbLinks}
use go_codec_dagpb.Node.{Node, Typed, Items}
use go_codec_dagpb.Node.LinksView
use go_codec_dagpb.Node.LinksView.{index}
use go_codec_dagpb.Node.Access.{link_items, link_items_repr}

suc_add : (i : ℕ) → suc i ≡ i + 1
suc_add i = omega arith

-- An index is past the end, or there is an item at it.
data At {ℓ} {A : Type ℓ} (xs : List A) (i : ℕ) : Type ℓ where
  past : length xs ≤ i → drop i xs ≡ [] → At xs i
  here : (x : A) → i < length xs → index xs i ≡ ok x → drop i xs ≡ x ∷ drop (suc i) xs → At xs i

at {ℓ} : {A : Type ℓ} (xs : List A) (i : ℕ) → At xs i
unfolding index
at [] zero = past (omega arith) refl
at [] (suc i) = past (omega arith) refl
at (x ∷ xs) zero = here x (omega arith) refl refl
at (x ∷ xs) (suc i) = elim (at xs i) [
  | past h e ↦ past (omega arith) e
  | here y h e d ↦ here y (omega arith) e d
]

module _ {C : Type 0} where
  -- An iterator over the links, each seen by `view`.
  abbrev pub items_of : (PbLink C → Typed C) → List (PbLink C) → Items C
  items_of view [] = Items.last
  items_of view (l ∷ ls) = Items.item (Node.typed (view l)) (items_of view ls)

  -- One turn of the loop over an iterator.
  module _ (next : ℕ → Outcome (ℕ × Node C × ℕ)) (done : ℕ → Bool) where
    run-done :
        (fuel idx : ℕ)
        → done idx ≡ true
        → LinksView.run_iterator next done (suc fuel) idx ≡ ok Items.last
    unfolding LinksView.run_iterator
    run-done fuel idx h = rw (h, LinksView.run_iterator) refl

    run-next :
        (fuel idx i j : ℕ) (v : Node C) (xs : Items C)
        → done idx ≡ false
        → next idx ≡ ok (i, v, j)
        → LinksView.run_iterator next done fuel j ≡ ok xs
        → LinksView.run_iterator next done (suc fuel) idx ≡ ok (Items.item v xs)
    unfolding LinksView.run_iterator
    run-next fuel idx i j v xs h e rest =
        rw (h, LinksView.run_iterator) (rw (e, LinksView.run_iterator) (rw rest refl))

  -- An iterator whose Next gives the view of the item at the index.
  module _ (n : PbLinks C) (view : PbLink C → Typed C) (next : ℕ → Outcome (ℕ × Node C × ℕ))
      (next_at : (i : ℕ) (x : PbLink C)
        → i < length n.x
        → index n.x i ≡ ok x
        → next i ≡ ok (i, Node.typed (view x), i + 1)) where
    run-drop :
        (fuel i : ℕ)
        → i ≤ length n.x
        → length n.x < i + fuel
        → LinksView.run_iterator next (LinksView.done n) fuel i ≡ ok (items_of view (drop i n.x))
    unfolding LinksView.done
    run-drop zero i le h = absurd (omega arith)
    run-drop (suc fuel) i lo h = elim (at n.x i) [
      | past le e ↦ rw e (run-done _ _ fuel i (le→leb _ _ le))
      | here x lt e d ↦ rw (d ∙ ap (λ j. x ∷ drop j n.x) (suc_add i)) (
          run-next _ _ fuel i i (i + 1) _ _ (lt→leb _ _ lt) (next_at i x lt e)
            (run-drop fuel (i + 1) (omega arith) (omega arith)))
    ]

  pub link_items-all : (n : PbLinks C) → link_items n ≡ ok (items_of Typed.pb_link n.x)
  unfolding link_items LinksView.next
  link_items-all n =
      run-drop n Typed.pb_link (LinksView.next n) (λ i x lt e. rw (lt→leb _ _ lt) (rw e refl))
        (length n.x + 1) 0 (omega arith) (omega arith)

  pub link_items_repr-all :
      (n : PbLinks C) → link_items_repr n ≡ ok (items_of Typed.pb_link_repr n.x)
  unfolding link_items_repr LinksView.repr_next LinksView.next
  link_items_repr-all n =
      run-drop n Typed.pb_link_repr (LinksView.repr_next n)
        (λ i x lt e. rw (lt→leb _ _ lt) (rw e refl)) (length n.x + 1) 0 (omega arith) (omega arith)

  -- The list iterator of a PBLinks yields the typed views of its links, and that of its
  -- representation yields their representations: each once and in their order. The iterators are
  -- then done, and Next neither fails nor panics before that.
  pub link_iterators_all :
      (n : PbLinks C)
      → (link_items n ≡ ok (items_of Typed.pb_link n.x))
        × (link_items_repr n ≡ ok (items_of Typed.pb_link_repr n.x))
  link_iterators_all n = (link_items-all n, link_items_repr-all n)
