-- ===== src/Paths.antt =====
-- internal/httpapi/path.go: the casing of a request path is folded to the one the route table
-- spells. A pattern is compiled once per path of the table, and a request is matched against the
-- literal paths and then against the patterns in the table's order. The map of literal paths is a
-- list, the latest insertion first, whose keys are distinct. Paths are bytes; the messages of the
-- errors are left out. Paths.Compile is the table's side, Paths.Match the request's.
pub mod Compile
pub mod Match
pub mod Canonical
pub mod Table
pub mod Fuel
pub mod Literals
mod Tests
