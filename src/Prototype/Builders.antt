-- ===== src/Prototype/Builders.antt =====
-- ipldsch_satisfaction.go: NewBuilder, Reset and Build of the ten builder types, and the From
-- functions of the scalar prototypes.
use go_codec_dagpb.Common.{ℤ, pos, Bytes, []}
use go_codec_dagpb.Outcome.{Outcome, ok, ◌>>=◌}
use go_codec_dagpb.Schema.{Maybe, Field, Link as IpldLink, nil}
use go_codec_dagpb.Node.{Typed}
use go_codec_dagpb.Prototype.{Prototype}
use go_codec_dagpb.Assembler.Calls.{Call, AssemblerMixins}
use go_codec_dagpb.Assembler.Scalar.{build}
use go_codec_dagpb.Assembler.Link
use go_codec_dagpb.Assembler.Link.{LinkAssembler}
use go_codec_dagpb.Assembler.LinkRepr
use go_codec_dagpb.Assembler.List as LinkList
use go_codec_dagpb.Assembler.List.{ListAssembler}
use go_codec_dagpb.Assembler.ListRepr
use go_codec_dagpb.Assembler.Root
use go_codec_dagpb.Assembler.Root.{RootAssembler}
use go_codec_dagpb.Assembler.RootRepr
use go_codec_dagpb.Assembler.ScalarCalls.{bytes_call, int_call, link_call, string_call}
use go_codec_dagpb.Assembler.MapCalls.{
  pb_link_call, pb_link_repr_call, pb_links_call, pb_links_repr_call, pb_node_call,
  pb_node_repr_call,
}

-- Reset: a new value and a new Maybe, whatever the builder held.
unfoldable pub bytes_reset : Field Bytes → Field Bytes
bytes_reset nb = record { m = Maybe.absent; v = [] }

unfoldable pub int_reset : Field ℤ → Field ℤ
int_reset nb = record { m = Maybe.absent; v = pos 0 }

unfoldable pub string_reset : Field Bytes → Field Bytes
string_reset nb = record { m = Maybe.absent; v = [] }

-- FromBytes, FromInt, FromString and FromLink, and the methods that give the value again.
unfoldable pub from_bytes : Bytes → Outcome Bytes
from_bytes v = ok v

unfoldable pub from_int : ℤ → Outcome ℤ
from_int v = ok v

unfoldable pub from_string : Bytes → Outcome Bytes
from_string v = ok v

module _ {C : Type 0} where
  unfoldable pub from_link : IpldLink C → Outcome (IpldLink C)
  from_link v = ok v

  unfoldable pub link_reset : Field (IpldLink C) → Field (IpldLink C)
  link_reset nb = record { m = Maybe.absent; v = nil }

  unfoldable pub pb_link_reset : LinkAssembler C → LinkAssembler C
  unfolding Link.new_builder
  pb_link_reset nb = Link.new_builder

  unfoldable pub pb_link_repr_reset : LinkAssembler C → LinkAssembler C
  unfolding LinkRepr.new_builder
  pb_link_repr_reset nb = LinkRepr.new_builder

  unfoldable pub pb_links_reset : ListAssembler C → ListAssembler C
  unfolding LinkList.new_builder
  pb_links_reset nb = LinkList.new_builder

  unfoldable pub pb_links_repr_reset : ListAssembler C → ListAssembler C
  unfolding ListRepr.new_builder
  pb_links_repr_reset nb = ListRepr.new_builder

  unfoldable pub pb_node_reset : RootAssembler C → RootAssembler C
  unfolding Root.new_builder
  pb_node_reset nb = Root.new_builder

  unfoldable pub pb_node_repr_reset : RootAssembler C → RootAssembler C
  unfolding RootRepr.new_builder
  pb_node_repr_reset nb = RootRepr.new_builder

-- An ipld.NodeBuilder with the state behind it.
pub record Builder (C S : Type 0) : Type 0 where
  pub reset : S → S
  pub call : Call C → S → Outcome S
  pub build : S → Outcome (Typed C)

-- Build returns `nb.w`, which is the typed node, from a representation builder too.
module _ {C : Type 0} (mixins : AssemblerMixins C) where
  abbrev pub bytes_builder : Builder C (Field Bytes)
  bytes_builder = record {
    reset = bytes_reset;
    call = bytes_call mixins;
    build = λ nb. (do b ← build nb; ok (Typed.bytes b));
  }

  abbrev pub int_builder : Builder C (Field ℤ)
  int_builder = record {
    reset = int_reset;
    call = int_call mixins;
    build = λ nb. (do i ← build nb; ok (Typed.int i));
  }

  abbrev pub link_builder : Builder C (Field (IpldLink C))
  link_builder = record {
    reset = link_reset;
    call = link_call mixins;
    build = λ nb. (do l ← build nb; ok (Typed.link l));
  }

  abbrev pub string_builder : Builder C (Field Bytes)
  string_builder = record {
    reset = string_reset;
    call = string_call mixins;
    build = λ nb. (do s ← build nb; ok (Typed.string s));
  }

  abbrev pub pb_link_builder : Builder C (LinkAssembler C)
  pb_link_builder = record {
    reset = pb_link_reset;
    call = pb_link_call mixins;
    build = λ nb. (do l ← Link.build nb; ok (Typed.pb_link l));
  }

  abbrev pub pb_link_repr_builder : Builder C (LinkAssembler C)
  pb_link_repr_builder = record {
    reset = pb_link_repr_reset;
    call = pb_link_repr_call mixins;
    build = λ nb. (do l ← LinkRepr.build nb; ok (Typed.pb_link l));
  }

  abbrev pub pb_links_builder : Builder C (ListAssembler C)
  pb_links_builder = record {
    reset = pb_links_reset;
    call = pb_links_call mixins;
    build = λ nb. (do ls ← LinkList.build nb; ok (Typed.pb_links ls));
  }

  abbrev pub pb_links_repr_builder : Builder C (ListAssembler C)
  pb_links_repr_builder = record {
    reset = pb_links_repr_reset;
    call = pb_links_repr_call mixins;
    build = λ nb. (do ls ← ListRepr.build nb; ok (Typed.pb_links ls));
  }

  abbrev pub pb_node_builder : Builder C (RootAssembler C)
  pb_node_builder = record {
    reset = pb_node_reset;
    call = pb_node_call mixins;
    build = λ nb. (do n ← Root.build nb; ok (Typed.pb_node n));
  }

  abbrev pub pb_node_repr_builder : Builder C (RootAssembler C)
  pb_node_repr_builder = record {
    reset = pb_node_repr_reset;
    call = pb_node_repr_call mixins;
    build = λ nb. (do n ← RootRepr.build nb; ok (Typed.pb_node n));
  }

module _ (C : Type 0) where
  abbrev pub BuilderState : Prototype → Type 0
  BuilderState Prototype.bytes = Field Bytes
  BuilderState Prototype.int = Field ℤ
  BuilderState Prototype.link = Field (IpldLink C)
  BuilderState Prototype.string = Field Bytes
  BuilderState Prototype.pb_link = LinkAssembler C
  BuilderState Prototype.pb_link_repr = LinkAssembler C
  BuilderState Prototype.pb_links = ListAssembler C
  BuilderState Prototype.pb_links_repr = ListAssembler C
  BuilderState Prototype.pb_node = RootAssembler C
  BuilderState Prototype.pb_node_repr = RootAssembler C

module _ {C : Type 0} (mixins : AssemblerMixins C) where
  -- The builder that NewBuilder of a prototype makes.
  abbrev pub builder : (q : Prototype) → Builder C (BuilderState C q)
  builder Prototype.bytes = bytes_builder mixins
  builder Prototype.int = int_builder mixins
  builder Prototype.link = link_builder mixins
  builder Prototype.string = string_builder mixins
  builder Prototype.pb_link = pb_link_builder mixins
  builder Prototype.pb_link_repr = pb_link_repr_builder mixins
  builder Prototype.pb_links = pb_links_builder mixins
  builder Prototype.pb_links_repr = pb_links_repr_builder mixins
  builder Prototype.pb_node = pb_node_builder mixins
  builder Prototype.pb_node_repr = pb_node_repr_builder mixins
