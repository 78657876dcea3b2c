-- ===== src/Defs/Mode.antt =====
-- The transmission modes of defs.go.
use Prim.Native.Nat.{ℕ}

abbrev pub server_cycle : ℕ
server_cycle = 3

abbrev pub server_on_change : ℕ
server_on_change = 4

abbrev pub server_cycle2 : ℕ
server_cycle2 = 5

abbrev pub server_on_change2 : ℕ
server_on_change2 = 6
