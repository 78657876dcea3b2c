-- ===== src/Client/Sum/Notify/Laws.antt =====
-- The batched notification commands of cmd_sum.go: what the caller's handler sees.
use go_ads.Common.{
  ℕ, suc, ◌*◌, ◌%◌, ◌^◌, ◌≡◌, ◌⊎◌, inl, inr, refl, sym, ◌∙◌, true, false, List, [], ◌∷◌, ◌++◌,
  append_assoc, append-nil, Bytes, length, arith, Result, none, Fault, Result-cases, Result-both,
  if-both, Option-cases, malformed, ◌==◌, ltb, ◌||◌,
}
use go_ads.Defs.{is_sum_command_unsupported_error, downgrade_trans_mode}
use go_ads.Client.Conn.{Conn, Capabilities}
use go_ads.Client.Rpc.{add_device_notification, write_read}
use go_ads.Client.Sum.Notify.{
  Batch, SumCmdSpec, NotificationRequest, NotificationResult, failed_with, verdict, skipped_for,
  emit, abandoned, report, sum_add_notification_fallback, sum_add_device_notification, encode_all,
  execute_sum_command, add_spec, failed, too_large,
}

module _ {S Req Res : Type 0} (ask : ℕ → Bytes → S → Result Bytes × S) where
  abbrev Outcome : SumCmdSpec S Req Res → (Conn S → Type 0) → List Req → Batch Res × Conn S → Type 0
  Outcome spec Inv requests (batch, c') =
      ((c1 : Conn S) × Inv c1 × ((batch, c') ≡ spec.fallback requests c1))
      ⊎ ((batch.fell_back ≡ false) × Inv c' × ((batch.fault ≡ none) ⊎ (batch.results ≡ [])))

  -- A batch falls back, or it fails with no results, or it has results; a property of the
  -- connection that requests keep holds until then.
  execute-cases :
      (spec : SumCmdSpec S Req Res) (Inv : Conn S → Type 0)
      → ((g o l : ℕ) (b : Bytes) (c : Conn S) → Inv c → Inv (write_read ask g o l b c).1)
      → ((k : Capabilities) (c : Conn S) → Inv c → Inv (record c { caps = k }))
      → (q : Req) (qs : List Req) (c : Conn S) → Inv c
      → Outcome spec Inv (q ∷ qs) (execute_sum_command ask spec (q ∷ qs) c)
  unfolding execute_sum_command
  execute-cases spec Inv keeps stays q qs c i =
      let n = suc (length qs) in
      let P = Outcome spec Inv (q ∷ qs) in
      let failing : (e : Fault) (c' : Conn S) → Inv c' → P (failed e, c') =
        λ e c' i'. inr (refl, i', inr refl) in
      let large = too_large n spec.item_read_size || too_large n spec.item_write_size in
      if-both P (spec.state_load c.caps == 2) (inl (c, i, refl)) (
        if-both P large (failing malformed c i) (
          Result-both P (encode_all spec.encode (q ∷ qs)) (λ e. failing e c i)
            (λ section.
              let (answer, c') =
                write_read ask spec.group n (n * spec.item_read_size % 2 ^ 32) section c in
              let i' = keeps spec.group n (n * spec.item_read_size % 2 ^ 32) section c i in
              let kept : (v : ℕ) → Inv (record c' { caps = spec.cas_state v c'.caps }) =
                λ v. stays _ c' i' in
              Result-both P answer
                (λ e.
                  if-both P (is_sum_command_unsupported_error e) (inl (_, kept 2, refl))
                    (failing e c' i'))
                (λ resp.
                  let batch : Batch Res = record {
                    results = spec.decode resp n;
                    fault = none;
                    fell_back = false;
                  } in
                  if-both P (ltb (length resp) (n * spec.item_read_size)) {b = (batch, _)}
                    (failing malformed _ (kept 1)) (inr (refl, kept 1, inl refl))))))

-- The calls of a handler that have been made.
abbrev pub Calls : Type 0
Calls = List (ℕ × NotificationResult)

abbrev pub numbered : {A : Type 0} → ℕ → List A → List (ℕ × A)
numbered i [] = []
numbered i (r ∷ rs) = (i, r) ∷ numbered (suc i) rs

module _ {W : Type 0} where
  -- The handler that keeps its calls beside the world.
  abbrev pub note : ℕ → NotificationResult → W × Calls → W × Calls
  note i r (w, calls) = (w, calls ++ ((i, r) ∷ []))

  -- A network that the calls are nothing to.
  abbrev pub beside :
      (ℕ → Bytes → W → Result Bytes × W) → ℕ → Bytes → W × Calls → Result Bytes × (W × Calls)
  beside ask command payload (w, calls) = let (r, w') = ask command payload w in (r, (w', calls))

  report-note :
      (i : ℕ) (rs : List NotificationResult) (w : W × Calls)
      → (report note i rs w).1 ≡ w.1 ++ numbered i rs
  unfolding report
  report-note i [] (w, calls) = sym (append-nil calls)
  report-note i (r ∷ rs) (w, calls) =
      report-note (suc i) rs (w, calls ++ ((i, r) ∷ [])) ∙ append_assoc calls _ _

  module _ (ask : ℕ → Bytes → W → Result Bytes × W) where
    add-calls :
        (g o l m : ℕ) (d t : _) (c : Conn (W × Calls))
        → (add_device_notification (beside ask) g o l m d t c).1.world.1 ≡ c.world.1
    unfolding add_device_notification
    add-calls g o l m d t c = ground arith

    write_read-calls :
        (g o l : ℕ) (b : Bytes) (c : Conn (W × Calls))
        → (write_read (beside ask) g o l b c).1.world.1 ≡ c.world.1
    unfolding write_read
    write_read-calls g o l b c = ground arith

    fallback-calls :
        (i : ℕ) (rs : List NotificationRequest) (c : Conn (W × Calls))
        → (sum_add_notification_fallback (beside ask) note i rs c).1.world.1
          ≡ c.world.1
            ++ numbered i (sum_add_notification_fallback (beside ask) note i rs c).0.results
    unfolding sum_add_notification_fallback
    fallback-calls i [] c = sym (append-nil c.world.1)
    fallback-calls i (r ∷ rs) c =
        let mode = downgrade_trans_mode r.mode in
        let (answer, c') =
          add_device_notification (beside ask) r.group r.offset r.length mode r.max_delay
            r.cycle_time c in
        let w = c'.world in
        let kept = add-calls r.group r.offset r.length mode r.max_delay r.cycle_time c in
        elim (Result-cases (verdict answer)) [
          | inl (e, h) ↦ rw (
            sum_add_notification_fallback,
            h,
            report-note i (skipped_for (failed_with e) ∷ abandoned i rs) w,
            kept,
          )
          | inr (item, h) ↦ rw (
            sum_add_notification_fallback,
            h,
            fallback-calls (suc i) rs (record c' { world = note i item w }),
            kept,
            append_assoc c.world.1 ((i, item) ∷ []) _,
          )
        ]

    fallback-fell_back :
        (i : ℕ) (rs : List NotificationRequest) (c : Conn (W × Calls))
        → (sum_add_notification_fallback (beside ask) note i rs c).0.fell_back ≡ true
    unfolding sum_add_notification_fallback
    fallback-fell_back i [] c = refl
    fallback-fell_back i (r ∷ rs) c =
        let (answer, c') =
          add_device_notification (beside ask) r.group r.offset r.length
            (downgrade_trans_mode r.mode) r.max_delay r.cycle_time c in
        let w = c'.world in
        elim (Result-cases (verdict answer)) [
          | inl (e, h) ↦ rw (sum_add_notification_fallback, h) refl
          | inr (item, h) ↦
              rw (sum_add_notification_fallback, h)
                (fallback-fell_back (suc i) rs (record c' { world = note i item w }))
        ]

    abbrev Done : Type 0
    Done = Batch NotificationResult × Conn (W × Calls)

    emit-fell_back : (d : Done) → d.0.fell_back ≡ true → emit (beside ask) note d ≡ d
    unfolding emit
    emit-fell_back (batch, c) f = ground arith

    emit-calls :
        (d : Done) (calls : Calls)
        → d.0.fell_back ≡ false
        → d.1.world.1 ≡ calls
        → (d.0.fault ≡ none) ⊎ (d.0.results ≡ [])
        → (emit (beside ask) note d).1.world.1
          ≡ calls ++ numbered 0 (emit (beside ask) note d).0.results
    unfolding emit report
    emit-calls (batch, c) calls f k (inl h) = rw (h, f, report-note 0 batch.results c.world, k) refl
    emit-calls (batch, c) calls f k (inr h) = elim (Option-cases batch.fault) [
      | inl e ↦ rw (e, f, h, append-nil calls) k
      | inr (x, e) ↦ rw (e, h, append-nil calls) k
    ]

    sum_add_empty :
        (c : Conn (W × Calls))
        → (sum_add_device_notification (beside ask) note [] c).1.world.1
          ≡ c.world.1 ++ numbered 0 (sum_add_device_notification (beside ask) note [] c).0.results
    unfolding sum_add_device_notification execute_sum_command report
    sum_add_empty c = sym (append-nil c.world.1)

    -- Whether the PLC takes the batch or has to be asked item by item, and whether that comes to
    -- an end or is aborted, the handler is called once for each result that is returned, with its
    -- index and in order.
    pub sum_add_calls :
        (rs : List NotificationRequest) (c : Conn (W × Calls))
        → (sum_add_device_notification (beside ask) note rs c).1.world.1
          ≡ c.world.1 ++ numbered 0 (sum_add_device_notification (beside ask) note rs c).0.results
    unfolding sum_add_device_notification
    sum_add_calls [] c = sum_add_empty c
    sum_add_calls (r ∷ rs) c =
        let spec = add_spec (beside ask) note in
        let done = execute_sum_command (beside ask) spec (r ∷ rs) c in
        elim (execute-cases (beside ask) spec (λ d. d.world.1 ≡ c.world.1)
          (λ g o l b d h. write_read-calls g o l b d ∙ h) (λ k d h. h) r rs c refl) [
            | inl (c1, kept, e) ↦
                let done' = sum_add_notification_fallback (beside ask) note 0 (r ∷ rs) c1 in
                let back = fallback-fell_back 0 (r ∷ rs) c1 in
                rw (e, emit-fell_back done' back, fallback-calls 0 (r ∷ rs) c1, kept) refl
            | inr (f, kept, h) ↦ emit-calls done c.world.1 f kept h
          ]
