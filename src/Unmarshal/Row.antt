-- ===== src/Unmarshal/Row.antt =====
-- The states that the builder's link assembler takes while `unmarshalLink` runs.
use go_codec_dagpb.Common.{
  ℕ, ◌+◌, ◌≡◌, refl, ℤ, pos, Bytes, Bool, true, false, Option, none, some, List, [],
}
use go_codec_dagpb.Outcome.{ok}
use go_codec_dagpb.Schema.{Maybe, MaState, LaState, PbLink, Link as IpldLink, nil, cid_link}
use go_codec_dagpb.Message.{LinkValue, field_of, link_of}
use go_codec_dagpb.Assembler.Link.{LinkAssembler}
use go_codec_dagpb.Assembler.Root.{RootAssembler}
use go_codec_dagpb.Unmarshal.Target.{node_builder, put_hash, put_name, put_tsize}

abbrev pub bit_of {ℓ} : {A : Type ℓ} → ℕ → Option A → ℕ
bit_of b none = 0
bit_of b (some a) = b

abbrev cm_of : Bool → Maybe
cm_of true = Maybe.value
cm_of false = Maybe.absent

module _ {C : Type 0} where
  abbrev hash_of : Option C → IpldLink C
  hash_of none = nil
  hash_of (some c) = cid_link c

  -- `f`, over what the assembler had before the row began.
  abbrev pub last_index : ℕ → Option C → Option Bytes → Option ℤ → ℕ
  last_index f h n (some t) = 2
  last_index f h (some n) none = 1
  last_index f (some h) none none = 0
  last_index f none none none = f

  -- The hash is the last field assigned, and has not been tidied.
  abbrev at_hash : Option C → Option Bytes → Option ℤ → Bool
  at_hash (some h) none none = true
  at_hash _ _ _ = false

  abbrev state_of : Option C → Option Bytes → Option ℤ → MaState
  state_of none none none = MaState.initial
  state_of _ _ _ = MaState.mid_value

  -- The assembler of a row that has the fields `h`, `n` and `t` so far.
  abbrev pub row_state : ℕ → Option C → Option Bytes → Option ℤ → LinkAssembler C
  row_state f h n t = record {
    w = some (record { hash = hash_of h; name = field_of [] n; tsize = field_of (pos 0) t });
    m = Maybe.mid_value;
    state = state_of h n t;
    s = bit_of 1 h + bit_of 2 n + bit_of 4 t;
    f = last_index f h n t;
    cm = cm_of (at_hash h n t);
    hash_w = at_hash h n t;
  }

  -- The assembler of a finished row.
  abbrev pub finished_row : LinkValue C → LinkAssembler C
  finished_row l = record {
    w = some (link_of l);
    m = Maybe.value;
    state = MaState.finished;
    s = 1 + bit_of 2 l.name + bit_of 4 l.tsize;
    f = last_index 0 (some l.hash) l.name l.tsize;
    cm = Maybe.absent;
    hash_w = false;
  }

  -- The builder with the link assembler `va` at work: `bytes` if Data came first, the links `x` done.
  abbrev pub in_row : Option Bytes → List (PbLink C) → LinkAssembler C → RootAssembler C
  in_row d x va = record {
    bytes = field_of [] d;
    m = Maybe.mid_value;
    state = MaState.mid_value;
    s = 1 + bit_of 2 d;
    f = 0;
    links = record { x = x; m = Maybe.mid_value; state = LaState.mid_value; va = va };
    links_w = true;
  }

  module _ (d : Option Bytes) (x : List (PbLink C)) (f : ℕ) where
    pub put_hash-row :
        (c : C)
        → put_hash node_builder c (in_row d x (row_state f none none none))
          ≡ ok (in_row d x (row_state f (some c) none none))
    unfolding node_builder put_hash
    put_hash-row c = refl

    pub put_name-row :
        (h : Option C) (n : Bytes)
        → put_name node_builder n (in_row d x (row_state f h none none))
          ≡ ok (in_row d x (row_state f h (some n) none))
    unfolding node_builder put_name
    put_name-row none n = refl
    put_name-row (some h) n = refl

    pub put_tsize-row :
        (h : Option C) (n : Option Bytes) (t : ℤ)
        → put_tsize node_builder t (in_row d x (row_state f h n none))
          ≡ ok (in_row d x (row_state f h n (some t)))
    unfolding node_builder put_tsize
    put_tsize-row none none t = refl
    put_tsize-row none (some n) t = refl
    put_tsize-row (some h) none t = refl
    put_tsize-row (some h) (some n) t = refl

    pub finish_row :
        (l : LinkValue C)
        → node_builder.row_finish (in_row d x (row_state f (some l.hash) l.name l.tsize))
          ≡ ok (in_row d x (finished_row l))
    unfolding node_builder
    finish_row l = go l.hash l.name l.tsize
      where
        go :
            (h : C) (n : Option Bytes) (t : Option ℤ)
            → node_builder.row_finish (in_row d x (row_state f (some h) n t))
              ≡ ok (in_row d x (finished_row (record { hash = h; name = n; tsize = t })))
        go h none none = refl
        go h none (some t) = refl
        go h (some n) none = refl
        go h (some n) (some t) = refl
