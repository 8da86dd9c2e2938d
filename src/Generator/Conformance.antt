-- ===== src/Generator/Conformance.antt =====
-- The generated struct types against the declarations that `main` of gen.go makes.
use go_codec_dagpb.Common.{
  ℤ, ◌≡◌, refl, Bytes, Bool, true, false, same, Option, none, some, List, [], ◌∷◌, map, codes,
  if◌then◌else◌,
}
use go_codec_dagpb.Outcome.{Outcome, ok, err, no_such_field, ◌>>=◌}
use go_codec_dagpb.Schema.{
  Maybe, Link as IpldLink, PbLink, PbLinks, PbNode, hash_key, name_key, tsize_key, links_key,
  data_key,
}
use go_codec_dagpb.Node.{Node, Typed, Entries}
use go_codec_dagpb.Node.LinkView
use go_codec_dagpb.Node.NodeView
use go_codec_dagpb.Node.Access.{link_entries, node_entries}
use go_codec_dagpb.Assembler.Link
use go_codec_dagpb.Assembler.Root
use go_codec_dagpb.Generator.{StructField, TypeDecl, spawn_struct, type_system}

-- The fields of a struct of the schema.
abbrev fields_in : Bytes → List TypeDecl → List StructField
fields_in s [] = []
fields_in s (spawn_struct n fs ∷ ds) = if same s n then fs else fields_in s ds
fields_in s (d ∷ ds) = fields_in s ds

-- Whether the field `k` is optional; `none` where there is no such field.
abbrev pub declared : Bytes → List StructField → Option Bool
declared k [] = none
declared k (f ∷ fs) = if same k f.name then some f.optional else declared k fs

module _ {C : Type 0} where
  -- The same, as a lookup shows it: an absent field gives Absent.
  abbrev pub shown : Outcome (Node C) → Option Bool
  shown (ok Node.absent) = some true
  shown (ok _) = some false
  shown _ = none

  abbrev gives_node : Outcome (Node C) → Bool
  gives_node (ok v) = true
  gives_node _ = false

  abbrev KnowsAt : Option Bool → Outcome (Node C) → Bytes → Type 0
  KnowsAt none o k = o ≡ err (no_such_field k)
  KnowsAt (some optional) o k = gives_node o ≡ true

  -- A lookup of `k` gives a node where `k` is declared, and the error where it is not.
  abbrev pub Knows : Outcome (Node C) → Bytes → List StructField → Type 0
  Knows o k fs = KnowsAt (declared k fs) o k

  abbrev keys_in : Entries C → List Bytes
  keys_in (Entries.entry (Node.typed (Typed.string k)) v es) = k ∷ keys_in es
  keys_in _ = []

  -- The keys of an iterator that comes to its end.
  abbrev pub keys : Outcome (Entries C) → Outcome (List Bytes)
  keys it = do es ← it; ok (keys_in es)

abbrev pub is_some {ℓ} : {A : Type ℓ} → Option A → Bool
is_some none = false
is_some (some a) = true

abbrev pub names : List StructField → List Bytes
names fs = map (λ f. f.name) fs

abbrev pub of_pb_link : List StructField
of_pb_link = fields_in (codes "PBLink") type_system

abbrev pub of_pb_node : List StructField
of_pb_node = fields_in (codes "PBNode") type_system

module _ {C : Type 0} where
  -- With the optional fields absent.
  abbrev pub bare_link : PbLink C → PbLink C
  bare_link l = record l {
    name = record { m = Maybe.absent; v = l.name.v };
    tsize = record { m = Maybe.absent; v = l.tsize.v };
  }

  abbrev pub bare_node : PbNode C → PbNode C
  bare_node n = record n { bytes = record { m = Maybe.absent; v = n.bytes.v } }

  link_keys :
      (h : IpldLink C) (m m' : Maybe) (s : Bytes) (i : ℤ)
      → keys (
          link_entries
            (record { hash = h; name = record { m = m; v = s }; tsize = record { m = m'; v = i } }))
        ≡ ok (names of_pb_link)
  unfolding link_entries
  link_keys h Maybe.absent Maybe.absent s i = refl
  link_keys h Maybe.absent _ s i = refl
  link_keys h _ Maybe.absent s i = refl
  link_keys h _ _ s i = refl

  node_keys :
      (ls : PbLinks C) (m : Maybe) (b : Bytes)
      → keys (node_entries (record { links = ls; bytes = record { m = m; v = b } }))
        ≡ ok (names of_pb_node)
  unfolding node_entries
  node_keys ls Maybe.absent b = refl
  node_keys ls _ b = refl

  -- The fields that the schema declares, in its order, are the keys that the typed map iterator
  -- yields, those for which LookupByString gives a node, for each other key being the error that there
  -- is no such field, and those that the assembler takes; and of a value whose optional fields are
  -- absent the lookup gives Absent exactly for the fields that are declared optional. So it is for
  -- PBLink and for PBNode.
  pub structs-conform :
      (l : PbLink C) (n : PbNode C) (k : Bytes)
      → (keys (link_entries l) ≡ ok (names of_pb_link))
        × Knows (LinkView.lookup l k) k of_pb_link
        × (shown (LinkView.lookup (bare_link l) k) ≡ declared k of_pb_link)
        × (is_some (Link.child_of k) ≡ is_some (declared k of_pb_link))
        × (keys (node_entries n) ≡ ok (names of_pb_node))
        × Knows (NodeView.lookup n k) k of_pb_node
        × (shown (NodeView.lookup (bare_node n) k) ≡ declared k of_pb_node)
        × (is_some (Root.child_of k) ≡ is_some (declared k of_pb_node))
  unfolding LinkView.lookup NodeView.lookup LinkView.is_absent_field Link.child_of Root.child_of
  structs-conform l n k = (
    link_keys l.hash l.name.m l.tsize.m l.name.v l.tsize.v,
    link_knows l.hash l.name.m l.tsize.m,
    link_lookup (same k hash_key) (same k name_key) (same k tsize_key),
    link_child (same k hash_key) (same k name_key) (same k tsize_key),
    node_keys n.links n.bytes.m n.bytes.v,
    node_knows n.bytes.m,
    node_lookup (same k links_key) (same k data_key),
    node_child (same k links_key) (same k data_key),
  )
    where
      link_knows :
          (h : IpldLink C) (m m' : Maybe)
          → let l' : PbLink C = record {
            hash = h;
            name = record { m = m; v = l.name.v };
            tsize = record { m = m'; v = l.tsize.v };
          } in
            Knows (LinkView.lookup l' k) k of_pb_link
      link_knows h m m' = go (same k hash_key) (same k name_key) (same k tsize_key) m m'
        where
          go :
              (a b c : Bool) (m m' : Maybe)
              → KnowsAt
                  (if a then some false else if b then some true else if c then some true else none)
                  (if a
                    then ok (Node.typed (Typed.link h))
                    else if b
                    then (if LinkView.is_absent_field (record { m = m; v = l.name.v })
                        then ok Node.absent
                        else ok (Node.typed (Typed.string l.name.v)))
                    else if c
                    then (if LinkView.is_absent_field (record { m = m'; v = l.tsize.v })
                        then ok Node.absent
                        else ok (Node.typed (Typed.int l.tsize.v)))
                    else err (no_such_field k))
                  k
          go true b c m m' = refl
          go false true c Maybe.absent m' = refl
          go false true c _ m' = refl
          go false false true m Maybe.absent = refl
          go false false true m _ = refl
          go false false false m m' = refl

      node_knows :
          (m : Maybe)
          → let n' : PbNode C = record {
            links = n.links;
            bytes = record { m = m; v = n.bytes.v };
          } in
            Knows (NodeView.lookup n' k) k of_pb_node
      node_knows m = go (same k links_key) (same k data_key) m
        where
          go :
              (a b : Bool) (m : Maybe)
              → KnowsAt
                  (if a then some false else if b then some true else none)
                  (if a
                    then ok (Node.typed (Typed.pb_links n.links))
                    else if b
                    then (if LinkView.is_absent_field (record { m = m; v = n.bytes.v })
                        then ok Node.absent
                        else ok (Node.typed (Typed.bytes n.bytes.v)))
                    else err (no_such_field k))
                  k
          go true b m = refl
          go false true Maybe.absent = refl
          go false true _ = refl
          go false false m = refl

      link_lookup :
          (a b c : Bool)
          → shown (
              if a
              then ok (Node.typed (Typed.link l.hash))
              else if b
              then ok Node.absent
              else if c
              then ok Node.absent
              else err (no_such_field k))
            ≡ (if a then some false else if b then some true else if c then some true else none)
      link_lookup true b c = refl
      link_lookup false true c = refl
      link_lookup false false true = refl
      link_lookup false false false = refl

      link_child :
          (a b c : Bool)
          → is_some (
              if a
              then some Link.Child.hash
              else if b
              then some Link.Child.name
              else if c
              then some Link.Child.tsize
              else none)
            ≡ is_some
                (if a then some false else if b then some true else if c then some true else none)
      link_child true b c = refl
      link_child false true c = refl
      link_child false false true = refl
      link_child false false false = refl

      node_lookup :
          (a b : Bool)
          → shown (
              if a
              then ok (Node.typed (Typed.pb_links n.links))
              else if b
              then ok Node.absent
              else err (no_such_field k))
            ≡ (if a then some false else if b then some true else none)
      node_lookup true b = refl
      node_lookup false true = refl
      node_lookup false false = refl

      node_child :
          (a b : Bool)
          → is_some (if a then some Root.Child.links else if b then some Root.Child.bytes else none)
            ≡ is_some (if a then some false else if b then some true else none)
      node_child true b = refl
      node_child false true = refl
      node_child false false = refl
