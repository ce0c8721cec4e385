-- ===== src/Ports.antt =====
-- internal/ports: the records that pass between the domain and the store. An instant is its count
-- of ticks (internal/units: a tick is 100 ns, and `units.At` rounds every instant to one), so
-- `Time.Equal` is equality of the counts. Go's int and int64 are integers here.
pub mod Items
pub mod Accounts
