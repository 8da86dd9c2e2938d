-- ===== src/Lib.antt =====
-- A model of package dagpb: the IPLD codec for DAG-PB blocks, with the schema's typed nodes and the
-- assemblers that build them.
--
-- The decoder (unmarshal.go) reads the bytes of a block with protowire and calls an
-- ipld.NodeAssembler; the encoder (marshal.go) copies any ipld.Node into a typed PBNode with that
-- type's assembler, sorts the links and appends the bytes. The typed nodes and their assemblers are
-- ipldsch_types.go, ipldsch_minima.go and ipldsch_satisfaction.go.
--
-- Files and what they model:
--   Outcome            what a call comes to: a value, an error value, a panic, or a lack of fuel
--   Schema             the structs of ipldsch_types.go, schema.Maybe and the assembler states
--   Node               ipld.Node as the assemblers and the encoder see it; Node/LinkView,
--                      Node/LinksView and Node/NodeView have the lookups, iterators and lengths of
--                      PBLink, PBLinks and PBNode, typed and as representations; Node/Iteration has
--                      what the list iterators yield, Node/Fields what the map iterators
--                      yield; Node/Maybes, MaybeMethods and Native have the Maybe methods, the
--                      field accessors and the methods that give links instead of nodes.
--                      Node/Interface is ipld.Node as the record of its methods; Node/ScalarMethods,
--                      MapMethods and ListMethods have that record for each Go type; Node/Kinds and
--                      Node/Agreement take the types together;
--                      Node/Ends says that the map iterators come to their end
--   Assembler          Assembler/Scalar, Link, List and Root: the assemblers of the scalars, of
--                      PBLink, of PBLinks and of PBNode; LinkRepr, ListRepr and RootRepr: the
--                      representation assemblers. A method is a function from the assembler's
--                      record to an Outcome of it; an assembler that a Go assembler points into is a
--                      field of the record, so that the shared cells are shared. Calls, ScalarCalls
--                      and MapCalls have the whole NodeAssembler interface of each type as a
--                      function of a call, ScalarNodes those functions together
--   Reference          what AssignNode should make of any node: the entries of a map are read into
--                      optional fields, with no assembler, no state and no bits; MessageOf says
--                      which message a typed PBNode stands for
--   Refines            the typed assemblers against that description: the states of an assembler by
--                      the fields that are set (LinkSteps, RootSteps), AssignNode (LinkValues,
--                      ListValues, RootValues), builders and AppendEncode (Built), AssembleEntry
--                      against AssembleKey (EntryKey), and the way to a finished link (Finishes)
--   Client             a caller that makes any calls in any order, and an invariant of the PBLink
--                      assembler under them
--   Lockstep           each representation assembler beside the typed one, and what their builders
--                      build
--   Wire               protowire and go-cid, as parameters with the laws that the codec relies on
--   Message            the value of a block, by the schema of doc.go
--   Unmarshal          Unmarshal/Link is unmarshalLink, Unmarshal/Node is DecodeBytes and Decode,
--                      over any target assembler (Unmarshal/Target); Unmarshal/LinkCalls and
--                      NodeCalls say which calls it makes on any target for bytes of the grammar
--   Marshal            Marshal/Collect, Sort and Append are the three parts of AppendEncode, and
--                      Encode; Marshal/Image says what the bytes of a message are
--   Copy               AssignNode of a PBNode's builder, with which AppendEncode begins, on the
--                      representation of a node and on a map of the data model
--   RoundTrip          both directions together
--   Transcode          a block decoded and encoded again
--   Canonical          when two messages have the same encoding; Marshal/Unique is its lemma on sorted
--                      lists
--   Parser             a parser of blocks with no assembler, and the grammar of the blocks in order;
--                      Unmarshal/LinkTotal, NodeTotal and Accepts compare the decoder with them,
--                      and Parser/Images shows that the encoder's bytes are of the grammar
--   Prototype          the prototypes and their builders: Reset, the calls of a builder, Build
--   Multicodec         init, the prototype chooser and the deprecated names of multicodec.go
--   Generator          the schema that gen.go declares, and the generated structs against it
--   Run                an instance of the wire library and of the CIDs, tests and concrete cases
--
-- Numbers: lengths and wire values are natural numbers with the bounds 2^63 and 2^64 written in the
-- hypotheses; an int64 is a signed integer, and the conversion of a uint64 wraps as in Go. The loops
-- of the decoder run on fuel, the length of the input, which is enough since each round takes a byte.
-- A loop over an iterator of this package runs on fuel too, one round more than the entries: to use it
-- up, as to panic in Next, is the outcome of the whole loop (run_iterator), and is shown not to happen.
--
-- A message can be encoded (Marshal/Image, CanEncode) when each link has a CID that go-cid reads back
-- from its bytes, a Tsize that is absent or an int64 that is not negative, and a length below 2^63,
-- and Data has a length below 2^63.
--
-- The package mixins of go-ipld-prime is a parameter (Node/Interface, Assembler/Calls); where a
-- theorem needs it, the hypothesis is that it answers a call with the wrong-kind error, and the
-- functions of Node/Access and the assemblers' AssignNull have that error in its place.
--
-- The registry of the package multicodec is a parameter (Multicodec), and the fields of a type that
-- gen.go declares are the arguments of its calls (Generator).
--
-- Not modelled: the methods Type, Representation, KeyPrototype and ValuePrototype, and Prototype of an
-- assembler, which return nil, a cast of the node or a fixed prototype, or panic; in a list, the
-- assembler of a row's child that a caller keeps when the row is done, and in a PBNode, that of Links
-- which a caller keeps when the Links are done; the panic of BeginList for a size hint that is too
-- large; the buffer that AppendEncode returns beside an error; in gen.go, the calls that check the
-- types and generate the code. The order of two errors follows the code, their text does not: an
-- error is a constructor with what the text quotes.
pub mod Common
pub mod Outcome
pub mod Schema
pub mod Node
pub mod Assembler
pub mod Wire
pub mod Message
pub mod Unmarshal
pub mod Marshal
mod Run
pub mod RoundTrip
pub mod Transcode
pub mod Canonical
pub mod Multicodec
pub mod Copy
pub mod Parser
pub mod Prototype
pub mod Generator
pub mod Reference
pub mod Refines
pub mod Lockstep
pub mod Client
