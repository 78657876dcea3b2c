-- ===== src/Access/Write/Laws.antt =====
-- No write of a batch that was dropped or refused passes for one that was made.
use go_ads.Common.{
  ℕ, suc, zero, ◌≡◌, refl, sym, ◌∙◌, true, false, ◌||◌, ◌++◌, ◌==◌, List, [], ◌∷◌, Bytes, length,
  Option, none, some, arith, All, ◌⊎◌, inl, inr, if-both, Result, Result-both, if◌then◌else◌,
}
use go_ads.Common.Dict.{Dict, Bytes-Key, IsDict}
use go_ads.Codec.Scalar.{Forms}
use go_ads.Client.Conn.{Conn}
use go_ads.Client.Sum.Layout.{WriteRequest}
use go_ads.Client.Sum.Write.{sum_write}
use go_ads.Access.BatchResult.{Item, is_listed, new_batch_error, writes, sort_batch_items}
use go_ads.Access.Cache.{Shared, report_first_stale}
use go_ads.Access.Read.{Batch, Sent, fails, requests_of, of_items}
use go_ads.Access.Write.{
  finish_write, write_batch, write_multiple_symbols_retry, write_multiple_symbols,
}
use go_ads.Access.Accounts.{
  is_sent, Named, retried-both, is_call_failure, failed_items, or_right, or_join, is_listed-append,
  is_listed-sort_batch_items, failed_items-of_items,
}
use go_ads.Access.Write.Codes.{is_written, names_of, noted, note_named}
use go_ads.Access.Write.Prepare.{prepared, prepare-Named, prepare-IsDict}

module _ (symbol_key : Bytes → Bytes) (forms : Forms) {P : Type 0}
    (ask : ℕ → Bytes → Shared P → Result Bytes × Shared P)
    (wait_for_reconnect : Conn (Shared P) → Conn (Shared P)) where
  -- A value was written, or is among the items of the error.
  abbrev Accounted : Batch ℕ → Bytes → Type 0
  Accounted b name = (is_written name b.values || is_listed name (failed_items b.error)) ≡ true

  abbrev Answered : List Bytes → Batch ℕ × Conn (Shared P) → Type 0
  Answered names x = (is_call_failure x.0.error ≡ true) ⊎ All (Accounted x.0) names

  finish-Accounted :
      (requested : ℕ) (dropped : List Item) (infos : Sent WriteRequest) (rs : List ℕ)
      (c : Conn (Shared P)) (names : List Bytes)
      → IsDict infos
      → All (Named (infos, dropped)) names
      → All
          (Accounted
            (finish_write symbol_key forms ask wait_for_reconnect requested dropped infos rs c).0)
          names
  unfolding finish_write
  finish-Accounted requested dropped infos rs c [] d l = tt
  finish-Accounted requested dropped infos rs c (n ∷ ns) d (e, l) =
      let s = report_first_stale rs c.world in
      let x = noted symbol_key forms ask wait_for_reconnect infos rs [] s in
      let named = note_named symbol_key forms ask wait_for_reconnect n infos rs [] s d in
      let (is, _) =
        failed_items-of_items writes requested x.0.0.1 (sort_batch_items (dropped ++ x.0.1)) in
      (
        rw (is, is_listed-sort_batch_items n (dropped ++ x.0.1), is_listed-append n dropped x.0.1)
            (or_join (is_sent n infos) (is_listed n dropped) (is_written n x.0.0.0)
              (is_listed n x.0.1) e named),
        finish-Accounted requested dropped infos rs c ns d l,
      )

  -- Where nothing was sent for, all is among the items.
  unsent-Accounted :
      (requested : ℕ) (dropped : List Item) (names : List Bytes)
      → All (Named {R = WriteRequest} ([], dropped)) names
      → All
          (Accounted (record {
            values = [];
            error = of_items (new_batch_error writes requested 0 (sort_batch_items dropped));
          }))
          names
  unfolding is_sent
  unsent-Accounted requested dropped [] l = tt
  unsent-Accounted requested dropped (n ∷ ns) (e, l) = (
    rw
        (
          (failed_items-of_items writes requested 0 (sort_batch_items dropped)).0,
          is_listed-sort_batch_items n dropped,
        )
        (or_right (is_written n []) (is_listed n dropped) e),
    unsent-Accounted requested dropped ns l,
  )

  chosen :
      (requested : ℕ) (names : List Bytes) (infos : Sent WriteRequest) (dropped : List Item)
      (sent : Batch ℕ × Conn (Shared P)) (c : Conn (Shared P))
      → All (Named (infos, dropped)) names
      → Answered names sent
      → Answered names (
          if length infos == 0
          then (
            record {
              values = [];
              error = of_items (new_batch_error writes requested 0 (sort_batch_items dropped));
            },
            c,
          )
          else sent)
  chosen requested names [] dropped sent c l a = inr (unsent-Accounted requested dropped names l)
  chosen requested names (i ∷ infos) dropped sent c l a =
      let more : (suc (length infos) == 0) ≡ false = ground arith in rw more a

  -- What another try is known to do.
  abbrev Try : List Bytes → Option (Conn (Shared P) → Batch ℕ × Conn (Shared P)) → Type 0
  Try names again = elim again as (λ _. Type 0) [
    | none ↦ Unit {0}
    | some call ↦ (c : Conn (Shared P)) → Answered names (call c)
  ]

  batch-Answered :
      (again : Option (Conn (Shared P) → Batch ℕ × Conn (Shared P))) (values : Dict Bytes Bytes)
      (c : Conn (Shared P))
      → IsDict values
      → Try (names_of values) again
      → Answered
          (names_of values)
          (write_batch symbol_key forms ask wait_for_reconnect again values c)
  unfolding write_batch
  batch-Answered again values c d k =
      let names = names_of values in
      let x = prepared symbol_key forms ask wait_for_reconnect c.world.datatypes values c in
      let named =
        prepare-Named symbol_key forms ask wait_for_reconnect c.world.datatypes values c in
      let answer = sum_write ask (requests_of x.0.0) x.1 in
      chosen (length values) names x.0.0 x.0.1 _ x.1 named (
        Result-both (Answered names) answer.0
          (λ e.
            retried-both (Answered names) wait_for_reconnect again c.world.epoch (fails e) answer.1
              (λ c'. inl (unfold is_call_failure in refl)) k)
          (λ results. inr (
            finish-Accounted (length values) x.0.1 x.0.0 results answer.1 names
              (prepare-IsDict symbol_key forms ask wait_for_reconnect c.world.datatypes values c d)
              named)))

  retry-Answered :
      (retries : ℕ) (values : Dict Bytes Bytes) (c : Conn (Shared P))
      → IsDict values
      → Answered
          (names_of values)
          (write_multiple_symbols_retry symbol_key forms ask wait_for_reconnect retries values c)
  unfolding write_multiple_symbols_retry
  retry-Answered retries [] c d = inr tt
  retry-Answered zero (v ∷ vs) c d = batch-Answered none (v ∷ vs) c d tt
  retry-Answered (suc retries) (v ∷ vs) c d =
      batch-Answered
        (some
          (write_multiple_symbols_retry symbol_key forms ask wait_for_reconnect retries (v ∷ vs)))
        (v ∷ vs) c d (λ c'. retry-Answered retries (v ∷ vs) c' d)

  call-Answered :
      (values : Dict Bytes Bytes) (c : Conn (Shared P))
      → IsDict values
      → Answered
          (names_of values)
          (write_multiple_symbols symbol_key forms ask wait_for_reconnect values c)
  unfolding write_multiple_symbols
  call-Answered values c d =
      if-both (Answered (names_of values)) c.world.has_client (retry-Answered 1 values c d)
        (inl (unfold is_call_failure in refl))

  -- Of values with different names, whatever the PLC answers and others do, and whether the call
  -- was repeated, each has the code 0 in the map or is named in the error, unless the call failed
  -- as a whole.
  pub write_multiple_symbols_lem :
      (values : Dict Bytes Bytes) (c : Conn (Shared P))
      → IsDict values
      → is_call_failure
          (write_multiple_symbols symbol_key forms ask wait_for_reconnect values c).0.error
        ≡ false
      → All
          (λ name.
            (is_written name
                (write_multiple_symbols symbol_key forms ask wait_for_reconnect values c).0.values
              || is_listed name (
                  failed_items
                    (write_multiple_symbols symbol_key forms ask wait_for_reconnect values
                      c).0.error))
            ≡ true)
          (names_of values)
  write_multiple_symbols_lem values c d h = elim (call-Answered values c d) [
    | inl e ↦ let f : true ≡ false = sym e ∙ h in absurd cc
    | inr l ↦ l
  ]
