-- ===== src/Access/Read.antt =====
-- ReadFromSymbol and ReadMultipleSymbols of symbol_access.go, for symbols without children. What
-- happens while `waitForReconnect` waits is a parameter.
pub mod Values
pub mod Laws
use go_ads.Common.{
  ℕ, suc, zero, ◌-◌, Bool, true, false, not, ◌&&◌, ◌||◌, ◌==◌, ltb, List, [], ◌∷◌, ◌++◌, Bytes,
  length, Option, none, some, if◌then◌else◌, Result, ok, err, transport, malformed, device, Fault,
}
use go_ads.Common.Dict.{Dict, Bytes-Key, lookup, insert}
use go_ads.Defs.{return_code?}
use go_ads.Defs.Code
use go_ads.Defs.Group
use go_ads.Codec.{DataTypes, parse}
use go_ads.Codec.Scalar.{Forms}
use go_ads.Client.Conn.{Conn, M, pure}
use go_ads.Client.Rpc.{read}
use go_ads.Client.Sum.Layout.{ReadRequest, ReadResult}
use go_ads.Client.Sum.Read.{sum_read}
use go_ads.Access.BatchResult.{
  Skipped, symbol_unresolved, value_unparsable, symbol_vanished, no_result, Item, skipped_item,
  BatchError, reads, new_batch_error,
}
use go_ads.Access.Cache.{
  Cached, Shared, at, symbol_sum_address, detected, report_first_stale, store_value,
}
use go_ads.Access.Resolve.{get_symbol}

-- The error of a batch: that of the call, or that of its items.
pub data Failure : Type 0 where
  call_failed : Fault → Failure
  items_failed : BatchError → Failure

abbrev pub of_items : Option BatchError → Option Failure
of_items none = none
of_items (some e) = some (items_failed e)

-- What a batch returns: a map from names and an error.
pub record Batch (V : Type 0) : Type 0 where
  pub values : Dict Bytes V
  pub error : Option Failure

abbrev pub fails : {V : Type 0} → Fault → Batch V
fails e = record { values = []; error = some (call_failed e) }

-- A request that is on its way, with the name that it is for.
abbrev pub Sent : Type 0 → Type 0
Sent R = List (Bytes × R)

abbrev pub requests_of : {R : Type 0} → Sent R → List R
requests_of [] = []
requests_of ((_, r) ∷ infos) = r ∷ requests_of infos

abbrev pub codes_of : List ReadResult → List ℕ
codes_of [] = []
codes_of (r ∷ rs) = r.error ∷ codes_of rs

-- The requests that have no result.
unfoldable pub unanswered : {R : Type 0} → Sent R → List Item
unanswered [] = []
unanswered ((name, _) ∷ infos) = skipped_item name no_result ∷ unanswered infos

-- What becomes of one result.
pub data Taken : Type 0 where
  valued : Bytes → Taken
  no_value : ℕ → Option Skipped → Taken

abbrev pub with_value : Bytes → Taken → Dict Bytes Bytes → Dict Bytes Bytes
with_value name (valued text) values = insert name text values
with_value name (no_value code why) values = values

abbrev pub with_item : Bytes → Taken → List Item → List Item
with_item name (valued text) failed = failed
with_item name (no_value code why) failed =
    let item : Item = record { symbol = name; error = code; skipped = why } in item ∷ failed

module _ {P : Type 0} where
  abbrev pub detected_in : Fault → Conn (Shared P) → Conn (Shared P)
  detected_in e c = elim (return_code? e) [
    | none ↦ c
    | some code ↦ record c { world = detected code c.world }
  ]

  -- Where a call has failed: again, if there is another try and the epoch is not that of the start.
  unfoldable pub retried :
      {A : Type 0}
      → (Conn (Shared P) → Conn (Shared P))
      → Option (Conn (Shared P) → A × Conn (Shared P))
      → ℕ
      → A
      → Conn (Shared P)
      → A × Conn (Shared P)
  retried wait_for_reconnect again epoch answer c =
      let c' = wait_for_reconnect c in
      elim again [
        | none ↦ (answer, c')
        | some call ↦ if c'.world.epoch == epoch then (answer, c') else call c'
      ]

module _ (symbol_key : Bytes → Bytes) (forms : Forms) {P : Type 0}
    (ask : ℕ → Bytes → Shared P → Result Bytes × Shared P)
    (wait_for_reconnect : Conn (Shared P) → Conn (Shared P)) where
  -- `now.Sub(symbol.LastUpdateTime) < symbol.MinUpdateInterval && symbol.Value != ""`; the clock
  -- does not go back.
  unfoldable pub cached_value : ℕ → Cached → Option Bytes
  cached_value now s =
      if ltb (now - s.last_update_time) s.min_update_interval && not (length s.value == 0)
      then some s.value
      else none

  -- What is made of the bytes that the PLC has sent.
  unfoldable pub take_read : ℕ → ℕ → Option DataTypes → Bytes → M (Shared P) Bytes
  unfolding at store_value detected
  take_read address size types body c =
      let s = c.world in
      if ltb 0 size && not (length body == size)
      then (
        err (device Code.device_invalid_size),
        record c { world = detected Code.device_invalid_size s },
      )
      else (elim (parse forms (at s.heap address).codec body 0 types) [
        | err e ↦ (err malformed, c)
        | ok text ↦ (ok text, record c { world = store_value address text s })
      ])

  unfoldable pub read_attempt : Option (M (Shared P) Bytes) → Bytes → M (Shared P) Bytes
  unfolding retried cached_value at
  read_attempt again name c =
      let (found, c1) = get_symbol symbol_key ask name c in
      elim found [
        | err e ↦ (err e, c1)
        | ok address ↦
            let entry = at c1.world.heap address in
            elim (cached_value c1.world.now entry) [
              | some text ↦ (ok text, c1)
              | none ↦
                  let (answer, c2) =
                    read ask Group.symbol_value_by_handle entry.handle entry.codec.size c1 in
                  elim answer [
                    | ok body ↦ take_read address entry.codec.size c1.world.datatypes body c2
                    | err e ↦
                        retried wait_for_reconnect again c.world.epoch (err e) (detected_in e c2)
                  ]
            ]
      ]

  unfoldable pub read_from_symbol_retry : ℕ → Bytes → M (Shared P) Bytes
  unfolding read_attempt
  read_from_symbol_retry zero name = read_attempt none name
  read_from_symbol_retry (suc n) name = read_attempt (some (read_from_symbol_retry n name)) name

  unfoldable pub read_from_symbol : Bytes → M (Shared P) Bytes
  read_from_symbol name c =
      if c.world.has_client then read_from_symbol_retry 1 name c else (err transport, c)

  -- The loop over the names.
  unfoldable pub prepare_reads :
      List Bytes → Conn (Shared P) → (Sent ReadRequest × List Item) × Conn (Shared P)
  unfolding at symbol_sum_address
  prepare_reads [] c = (([], []), c)
  prepare_reads (name ∷ names) c =
      let (found, c1) = get_symbol symbol_key ask name c in
      let ((infos, failed), c2) = prepare_reads names c1 in
      elim found [
        | err e ↦ ((infos, skipped_item name (symbol_unresolved e) ∷ failed), c2)
        | ok address ↦
            let entry = at c1.world.heap address in
            let (group, offset) = symbol_sum_address entry in
            let request : ReadRequest = record {
              group = group;
              offset = offset;
              read_length = entry.codec.size;
            } in
            (((name, request) ∷ infos, failed), c2)
      ]

  unfoldable pub take_result : Bytes → ReadResult → Shared P → Taken × Shared P
  unfolding at store_value
  take_result name r s =
      if not (r.error == 0)
      then (no_value r.error none, s)
      else elim (lookup (symbol_key name) s.symbols) [
        | none ↦ (no_value 0 (some symbol_vanished), s)
        | some address ↦ elim (parse forms (at s.heap address).codec r.body 0 s.datatypes) [
          | err e ↦ (no_value 0 (some (value_unparsable e)), s)
          | ok text ↦ (valued text, store_value address text s)
        ]
      ]

  -- The loop over the results; one beyond the requests ends it.
  unfoldable pub decode_results :
      Sent ReadRequest
      → List ReadResult
      → Dict Bytes Bytes
      → Shared P
      → (Dict Bytes Bytes × List Item) × Shared P
  unfolding take_result
  decode_results [] results values s = ((values, []), s)
  decode_results (i ∷ infos) [] values s = ((values, unanswered (i ∷ infos)), s)
  decode_results ((name, _) ∷ infos) (r ∷ rs) values s =
      let (taken, s') = take_result name r s in
      let ((final, failed), s'') = decode_results infos rs (with_value name taken values) s' in
      ((final, with_item name taken failed), s'')

  unfoldable pub finish_read :
      ℕ
      → List Item
      → Sent ReadRequest
      → List ReadResult
      → Conn (Shared P)
      → Batch Bytes × Conn (Shared P)
  unfolding decode_results report_first_stale
  finish_read requested unresolved infos results c =
      let ((values, failed), s) =
        decode_results infos results [] (report_first_stale (codes_of results) c.world) in
      (
        record {
          values = values;
          error = of_items (new_batch_error reads requested (length values) (unresolved ++ failed));
        },
        record c { world = s },
      )

  unfoldable pub read_batch :
      Option (Conn (Shared P) → Batch Bytes × Conn (Shared P))
      → List Bytes
      → Conn (Shared P)
      → Batch Bytes × Conn (Shared P)
  unfolding prepare_reads finish_read retried new_batch_error
  read_batch again names c =
      let ((infos, unresolved), c1) = prepare_reads names c in
      let (answer, c2) = sum_read ask (requests_of infos) c1 in
      let sent : Batch Bytes × Conn (Shared P) = elim answer [
        | ok results ↦ finish_read (length names) unresolved infos results c2
        | err e ↦ retried wait_for_reconnect again c.world.epoch (fails e) c2
      ] in
      if length infos == 0
      then (
        record {
          values = [];
          error = of_items (new_batch_error reads (length names) 0 unresolved);
        },
        c1,
      )
      else sent

  -- Reading none returns neither a map nor an error.
  unfoldable pub read_multiple_symbols_retry :
      ℕ → List Bytes → Conn (Shared P) → Batch Bytes × Conn (Shared P)
  unfolding read_batch
  read_multiple_symbols_retry retries [] c = (record { values = []; error = none }, c)
  read_multiple_symbols_retry zero (n ∷ ns) c = read_batch none (n ∷ ns) c
  read_multiple_symbols_retry (suc retries) (n ∷ ns) c =
      read_batch (some (read_multiple_symbols_retry retries (n ∷ ns))) (n ∷ ns) c

  unfoldable pub read_multiple_symbols :
      List Bytes → Conn (Shared P) → Batch Bytes × Conn (Shared P)
  read_multiple_symbols names c =
      if c.world.has_client then read_multiple_symbols_retry 1 names c else (fails transport, c)
