-- ===== src/Access/Read/Laws.antt =====
-- No name of a batch of reads is dropped.
use go_ads.Common.{
  ℕ, suc, zero, ◌≡◌, refl, sym, ◌∙◌, true, false, ◌||◌, ◌++◌, ◌==◌, List, [], ◌∷◌, Bytes, length,
  Option, none, some, arith, All, ◌⊎◌, inl, inr, if◌then◌else◌, if-both, Result, Result-both,
}
use go_ads.Common.Dict.{Bytes-Key, has}
use go_ads.Codec.Scalar.{Forms}
use go_ads.Client.Conn.{Conn}
use go_ads.Client.Sum.Layout.{ReadRequest, ReadResult}
use go_ads.Client.Sum.Read.{sum_read}
use go_ads.Access.BatchResult.{
  Item, skipped_item, symbol_unresolved, is_listed, new_batch_error, reads,
}
use go_ads.Access.Cache.{Shared, report_first_stale}
use go_ads.Access.Resolve.{get_symbol}
use go_ads.Access.Read.{
  Batch, Sent, fails, requests_of, codes_of, of_items, prepare_reads, finish_read, read_batch,
  read_multiple_symbols_retry, read_multiple_symbols,
}
use go_ads.Access.Accounts.{
  is_sent, Named, retried-both, one_sent, one_dropped, is_call_failure, failed_items, or_join,
  is_listed-append, failed_items-of_items,
}
use go_ads.Access.Read.Values.{decoded, decode_named}

module _ (symbol_key : Bytes → Bytes) (forms : Forms) {P : Type 0}
    (ask : ℕ → Bytes → Shared P → Result Bytes × Shared P)
    (wait_for_reconnect : Conn (Shared P) → Conn (Shared P)) where
  -- A name that is asked for is sent for, or is among the items.
  prepare-Named :
      (names : List Bytes) (c : Conn (Shared P))
      → All (Named (prepare_reads symbol_key forms ask wait_for_reconnect names c).0) names
  unfolding prepare_reads
  prepare-Named [] c = tt
  prepare-Named (name ∷ names) c =
      let found = get_symbol symbol_key ask name c in
      let rest = prepare_reads symbol_key forms ask wait_for_reconnect names found.1 in
      let named = prepare-Named names found.1 in
      Result-both
        (λ (y : (Sent ReadRequest × List Item) × Conn (Shared P)). All (Named y.0) (name ∷ names))
        found.0 (λ e. one_dropped (skipped_item name (symbol_unresolved e)) rest.0 names named)
        (λ address. one_sent name _ rest.0 names named)

  -- Not known to have failed as a whole, with a value or an item for every name.
  abbrev Accounted : Batch Bytes → Bytes → Type 0
  Accounted b name = (has name b.values || is_listed name (failed_items b.error)) ≡ true

  abbrev Answered : List Bytes → Batch Bytes × Conn (Shared P) → Type 0
  Answered names x = (is_call_failure x.0.error ≡ true) ⊎ All (Accounted x.0) names

  finish-Accounted :
      (requested : ℕ) (dropped : List Item) (infos : Sent ReadRequest) (rs : List ReadResult)
      (c : Conn (Shared P)) (names : List Bytes)
      → All (Named (infos, dropped)) names
      → All
          (Accounted
            (finish_read symbol_key forms ask wait_for_reconnect requested dropped infos rs c).0)
          names
  unfolding finish_read
  finish-Accounted requested dropped infos rs c [] l = tt
  finish-Accounted requested dropped infos rs c (n ∷ ns) (e, l) =
      let s = report_first_stale (codes_of rs) c.world in
      let x = decoded symbol_key forms ask wait_for_reconnect infos rs [] s in
      let named = decode_named symbol_key forms ask wait_for_reconnect n infos rs [] s in
      let (is, _) = failed_items-of_items reads requested (length x.0.0) (dropped ++ x.0.1) in
      (
        rw (is, is_listed-append n dropped x.0.1)
            (or_join (is_sent n infos) (is_listed n dropped) (has n x.0.0) (is_listed n x.0.1) e
              named),
        finish-Accounted requested dropped infos rs c ns l,
      )

  -- Where nothing was sent for, all is among the items.
  unsent-Accounted :
      (requested : ℕ) (dropped : List Item) (names : List Bytes)
      → All (Named {R = ReadRequest} ([], dropped)) names
      → All
          (Accounted
            (record { values = []; error = of_items (new_batch_error reads requested 0 dropped) }))
          names
  unfolding is_sent has
  unsent-Accounted requested dropped [] l = tt
  unsent-Accounted requested dropped (n ∷ ns) (e, l) = (
    rw (failed_items-of_items reads requested 0 dropped).0 e,
    unsent-Accounted requested dropped ns l,
  )

  chosen :
      (names : List Bytes) (infos : Sent ReadRequest) (dropped : List Item)
      (sent : Batch Bytes × Conn (Shared P)) (c : Conn (Shared P))
      → All (Named (infos, dropped)) names
      → Answered names sent
      → Answered names (
          if length infos == 0
          then (
            record {
              values = [];
              error = of_items (new_batch_error reads (length names) 0 dropped);
            },
            c,
          )
          else sent)
  chosen names [] dropped sent c l a = inr (unsent-Accounted (length names) dropped names l)
  chosen names (i ∷ infos) dropped sent c l a =
      let more : (suc (length infos) == 0) ≡ false = ground arith in rw more a

  -- What another try is known to do.
  abbrev Try : List Bytes → Option (Conn (Shared P) → Batch Bytes × Conn (Shared P)) → Type 0
  Try names again = elim again as (λ _. Type 0) [
    | none ↦ Unit {0}
    | some call ↦ (c : Conn (Shared P)) → Answered names (call c)
  ]

  batch-Answered :
      (again : Option (Conn (Shared P) → Batch Bytes × Conn (Shared P))) (names : List Bytes)
      (c : Conn (Shared P))
      → Try names again
      → Answered names (read_batch symbol_key forms ask wait_for_reconnect again names c)
  unfolding read_batch
  batch-Answered again names c k =
      let prepared = prepare_reads symbol_key forms ask wait_for_reconnect names c in
      let named = prepare-Named names c in
      let answer = sum_read ask (requests_of prepared.0.0) prepared.1 in
      chosen names prepared.0.0 prepared.0.1 _ prepared.1 named (
        Result-both (Answered names) answer.0
          (λ e.
            retried-both (Answered names) wait_for_reconnect again c.world.epoch (fails e) answer.1
              (λ c'. inl (unfold is_call_failure in refl)) k)
          (λ results. inr (
            finish-Accounted (length names) prepared.0.1 prepared.0.0 results answer.1 names
              named)))

  retry-Answered :
      (retries : ℕ) (names : List Bytes) (c : Conn (Shared P))
      → Answered names
          (read_multiple_symbols_retry symbol_key forms ask wait_for_reconnect retries names c)
  unfolding read_multiple_symbols_retry
  retry-Answered retries [] c = inr tt
  retry-Answered zero (n ∷ ns) c = batch-Answered none (n ∷ ns) c tt
  retry-Answered (suc retries) (n ∷ ns) c =
      batch-Answered
        (some
          (read_multiple_symbols_retry symbol_key forms ask wait_for_reconnect retries (n ∷ ns)))
        (n ∷ ns) c (λ c'. retry-Answered retries (n ∷ ns) c')

  call-Answered :
      (names : List Bytes) (c : Conn (Shared P))
      → Answered names (read_multiple_symbols symbol_key forms ask wait_for_reconnect names c)
  unfolding read_multiple_symbols
  call-Answered names c =
      if-both (Answered names) c.world.has_client (retry-Answered 1 names c)
        (inl (unfold is_call_failure in refl))

  -- Whatever the PLC answers and others do, and whether the call was repeated, each requested name
  -- has a value or is named in the error, unless the call failed as a whole.
  pub read_multiple_symbols_lem :
      (names : List Bytes) (c : Conn (Shared P))
      → is_call_failure
          (read_multiple_symbols symbol_key forms ask wait_for_reconnect names c).0.error
        ≡ false
      → All
          (λ name.
            (has name
                (read_multiple_symbols symbol_key forms ask wait_for_reconnect names c).0.values
              || is_listed name (
                  failed_items
                    (read_multiple_symbols symbol_key forms ask wait_for_reconnect names
                      c).0.error))
            ≡ true)
          names
  read_multiple_symbols_lem names c h = elim (call-Answered names c) [
    | inl e ↦ let f : true ≡ false = sym e ∙ h in absurd cc
    | inr l ↦ l
  ]
