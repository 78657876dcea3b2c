-- ===== src/Access/Cache.antt =====
-- The state that the access by name reads and changes. Pointers to symbols are addresses in a heap,
-- since an entry of the symbol cache may be replaced while a caller still holds the old one.
use go_ads.Common.{
  ℕ, ◌+◌, ◌%◌, ◌^◌, Bool, true, false, not, ◌==◌, List, [], ◌∷◌, ◌++◌, Bytes, Option, none, some,
  if◌then◌else◌,
}
use go_ads.Common.Dict.{Dict, ℕ-Key, lookup, insert}
use go_ads.Defs.Group
use go_ads.Defs.{detect_stale_cache}
use go_ads.Codec.{Symbol, DataTypes}

-- The fields of `symbol` that reads and writes by name use.
pub record Cached : Type 0 where
  pub codec : Symbol
  pub group : ℕ
  pub offset : ℕ
  pub parent_offsets : List ℕ  -- of Parent, its Parent, and so on
  pub handle : ℕ
  pub value : Bytes
  pub value_parsed : Bool
  pub last_update_time : ℕ
  pub min_update_interval : ℕ

-- Of Session, with the clock and the state `P` of the PLC.
pub record Shared (P : Type 0) : Type 0 where
  pub plc : P
  pub now : ℕ
  pub has_client : Bool
  pub epoch : ℕ
  pub symbols : Dict Bytes ℕ
  pub on_demand_symbols : Dict Bytes Bool
  pub heap : Dict ℕ Cached
  pub next : ℕ  -- the address of the next allocation
  pub datatypes : Option DataTypes
  pub detections : List ℕ  -- the codes that handleStaleDetection was called with

abbrev pub nil_symbol : Cached
nil_symbol = record {
  codec = record { data_type = []; base_type = 0; size = 0 };
  group = 0;
  offset = 0;
  parent_offsets = [];
  handle = 0;
  value = [];
  value_parsed = false;
  last_update_time = 0;
  min_update_interval = 0;
}

-- No pointer dangles in Go; the blank symbol is never used.
unfoldable pub at : Dict ℕ Cached → ℕ → Cached
at heap address = elim (lookup address heap) [ none ↦ nil_symbol | some s ↦ s ]

abbrev sum_of : List ℕ → ℕ
sum_of [] = 0
sum_of (x ∷ xs) = x + sum_of xs

-- symbolSumAddress
unfoldable pub symbol_sum_address : Cached → ℕ × ℕ
symbol_sum_address s =
    if not (s.handle == 0)
    then (Group.symbol_value_by_handle, s.handle)
    else if not (s.group == 0)
    then (s.group, (s.offset + sum_of s.parent_offsets) % 2 ^ 32)
    else (Group.symbol_value_by_handle, s.handle)

module _ {P : Type 0} where
  unfoldable pub detected : ℕ → Shared P → Shared P
  detected code s = record s { detections = s.detections ++ (code ∷ []) }

  -- The first stale code of a batch, which alone is reported.
  unfoldable pub report_first_stale : List ℕ → Shared P → Shared P
  report_first_stale [] s = s
  report_first_stale (code ∷ codes) s =
      let rest = report_first_stale codes s in
      if code == 0
      then rest
      else elim (detect_stale_cache code) [ none ↦ rest | some _ ↦ detected code s ]

  unfoldable pub put : ℕ → Cached → Shared P → Shared P
  put address entry s = record s { heap = insert address entry s.heap }

  -- `live.Value = ""; live.ValueParsed = false`
  unfoldable pub invalidate : Option ℕ → Shared P → Shared P
  unfolding at put
  invalidate none s = s
  invalidate (some address) s =
      let live = at s.heap address in
      put address (record live { value = []; value_parsed = false }) s

  -- What a successful `parse` and the assignments behind it leave in the symbol.
  unfoldable pub store_value : ℕ → Bytes → Shared P → Shared P
  unfolding at put
  store_value address text s =
      let live = at s.heap address in
      put address (record live { value = text; value_parsed = true; last_update_time = s.now }) s
