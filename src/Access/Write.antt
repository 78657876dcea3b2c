-- ===== src/Access/Write.antt =====
-- WriteToSymbol and WriteMultipleSymbols of symbol_access.go, for symbols without children. The
-- map of values is in the order in which Go happens to go through it.
pub mod Codes
pub mod Prepare
pub mod Laws
use go_ads.Common.{
  ℕ, suc, zero, ◌+◌, Bool, not, ◌==◌, List, [], ◌∷◌, ◌++◌, Bytes, length, Option, none, some,
  if◌then◌else◌, Result, ok, err, transport,
}
use go_ads.Common.Dict.{Dict, Bytes-Key, lookup, insert}
use go_ads.Defs.Group
use go_ads.Codec.{DataTypes, write_to_node}
use go_ads.Codec.Scalar.{Forms}
use go_ads.Client.Conn.{Conn, M}
use go_ads.Client.Rpc.{write}
use go_ads.Client.Sum.Layout.{WriteRequest}
use go_ads.Client.Sum.Write.{sum_write}
use go_ads.Access.BatchResult.{
  symbol_unresolved, value_unserializable, Item, skipped_item, refused_item, writes,
  new_batch_error, sort_batch_items,
}
use go_ads.Access.Cache.{Shared, at, symbol_sum_address, report_first_stale, invalidate}
use go_ads.Access.Resolve.{get_symbol}
use go_ads.Access.Read.{Batch, fails, of_items, Sent, requests_of, unanswered, retried, detected_in}

module _ (symbol_key : Bytes → Bytes) (forms : Forms) {P : Type 0}
    (ask : ℕ → Bytes → Shared P → Result Bytes × Shared P)
    (wait_for_reconnect : Conn (Shared P) → Conn (Shared P)) where
  -- The value that the cache has for the name is no longer current.
  unfoldable pub forget_value : Bytes → Shared P → Shared P
  unfolding invalidate
  forget_value name s = invalidate (lookup (symbol_key name) s.symbols) s

  unfoldable pub write_attempt :
      Option (M (Shared P) (Unit {0})) → Bytes → Bytes → M (Shared P) (Unit {0})
  unfolding at forget_value
  write_attempt again name value c =
      let (found, c1) = get_symbol symbol_key ask name c in
      elim found [
        | err e ↦ (err e, c1)
        | ok address ↦
            let entry = at c1.world.heap address in
            elim (write_to_node forms entry.codec value c1.world.datatypes) [
              | err e ↦ (err e, c1)
              | ok body ↦
                  let (answer, c2) = write ask Group.symbol_value_by_handle entry.handle body c1 in
                  elim answer [
                    | ok _ ↦ (ok tt, record c2 { world = forget_value name c2.world })
                    | err e ↦
                        retried wait_for_reconnect again c.world.epoch (err e) (detected_in e c2)
                  ]
            ]
      ]

  unfoldable pub write_to_symbol_retry : ℕ → Bytes → Bytes → M (Shared P) (Unit {0})
  unfolding write_attempt
  write_to_symbol_retry zero name value = write_attempt none name value
  write_to_symbol_retry (suc n) name value =
      write_attempt (some (write_to_symbol_retry n name value)) name value

  unfoldable pub write_to_symbol : Bytes → Bytes → M (Shared P) (Unit {0})
  write_to_symbol name value c =
      if c.world.has_client then write_to_symbol_retry 1 name value c else (err transport, c)

  -- The loop over the values, with the datatype table from before it.
  unfoldable pub prepare_writes :
      Option DataTypes
      → Dict Bytes Bytes
      → Conn (Shared P)
      → (Sent WriteRequest × List Item) × Conn (Shared P)
  unfolding at symbol_sum_address
  prepare_writes types [] c = (([], []), c)
  prepare_writes types ((name, value) ∷ values) c =
      let (found, c1) = get_symbol symbol_key ask name c in
      let ((infos, failed), c2) = prepare_writes types values c1 in
      elim found [
        | err e ↦ ((infos, skipped_item name (symbol_unresolved e) ∷ failed), c2)
        | ok address ↦
            let entry = at c1.world.heap address in
            let (group, offset) = symbol_sum_address entry in
            elim (write_to_node forms entry.codec value types) [
              | err e ↦ ((infos, skipped_item name (value_unserializable e) ∷ failed), c2)
              | ok body ↦
                  let request : WriteRequest = record {
                    group = group;
                    offset = offset;
                    body = body;
                  } in
                  (((name, request) ∷ infos, failed), c2)
            ]
      ]

  -- The loop over the results, with the number of those that are no errors.
  unfoldable pub note_codes :
      Sent WriteRequest
      → List ℕ
      → Dict Bytes ℕ
      → Shared P
      → ((Dict Bytes ℕ × ℕ) × List Item) × Shared P
  unfolding forget_value
  note_codes [] results codes s = (((codes, 0), []), s)
  note_codes (i ∷ infos) [] codes s = (((codes, 0), unanswered (i ∷ infos)), s)
  note_codes ((name, _) ∷ infos) (code ∷ rest) codes s =
      let s' = if code == 0 then forget_value name s else s in
      let (((final, n), failed), s'') = note_codes infos rest (insert name code codes) s' in
      (
        (
          (final, if code == 0 then n + 1 else n),
          if code == 0 then failed else refused_item name code ∷ failed,
        ),
        s'',
      )

  unfoldable pub finish_write :
      ℕ → List Item → Sent WriteRequest → List ℕ → Conn (Shared P) → Batch ℕ × Conn (Shared P)
  unfolding note_codes report_first_stale
  finish_write requested dropped infos results c =
      let (((codes, succeeded), failed), s) =
        note_codes infos results [] (report_first_stale results c.world) in
      (
        record {
          values = codes;
          error =
              of_items
                (new_batch_error writes requested succeeded (sort_batch_items (dropped ++ failed)));
        },
        record c { world = s },
      )

  unfoldable pub write_batch :
      Option (Conn (Shared P) → Batch ℕ × Conn (Shared P))
      → Dict Bytes Bytes
      → Conn (Shared P)
      → Batch ℕ × Conn (Shared P)
  unfolding prepare_writes finish_write new_batch_error sort_batch_items
  write_batch again values c =
      let ((infos, dropped), c1) = prepare_writes c.world.datatypes values c in
      let (answer, c2) = sum_write ask (requests_of infos) c1 in
      let sent : Batch ℕ × Conn (Shared P) = elim answer [
        | ok results ↦ finish_write (length values) dropped infos results c2
        | err e ↦ retried wait_for_reconnect again c.world.epoch (fails e) c2
      ] in
      if length infos == 0
      then (
        record {
          values = [];
          error = of_items (new_batch_error writes (length values) 0 (sort_batch_items dropped));
        },
        c1,
      )
      else sent

  unfoldable pub write_multiple_symbols_retry :
      ℕ → Dict Bytes Bytes → Conn (Shared P) → Batch ℕ × Conn (Shared P)
  unfolding write_batch
  write_multiple_symbols_retry retries [] c = (record { values = []; error = none }, c)
  write_multiple_symbols_retry zero (v ∷ vs) c = write_batch none (v ∷ vs) c
  write_multiple_symbols_retry (suc retries) (v ∷ vs) c =
      write_batch (some (write_multiple_symbols_retry retries (v ∷ vs))) (v ∷ vs) c

  unfoldable pub write_multiple_symbols :
      Dict Bytes Bytes → Conn (Shared P) → Batch ℕ × Conn (Shared P)
  write_multiple_symbols values c =
      if c.world.has_client then write_multiple_symbols_retry 1 values c else (fails transport, c)
