-- ===== src/Reference.antt =====
-- What AssignNode is to make of any node, said without assemblers: the fields of a map in a record
-- of options, each set once.
pub mod LinkFields
pub mod NodeFields
pub mod MessageOf
