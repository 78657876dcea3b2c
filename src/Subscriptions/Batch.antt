-- ===== src/Subscriptions/Batch.antt =====
-- `AddSymbolNotifications` of notification_api.go: what it does before the batch is sent, `onItem`
-- for each answer, and `settle`. What the PLC and the Client answer, what the symbol cache holds
-- at each commit, and what others do to the manager meanwhile are arguments. The replay of early
-- samples, the heartbeat and the logging are left out.
pub mod Laws
pub mod Keeps
mod Samples
use go_ads.Common.{
  ℕ, Bool, true, false, ◌&&◌, ◌||◌, not, Option, none, some, List, [], ◌∷◌, ◌++◌, Bytes, ◌==◌,
  if◌then◌else◌,
}
use go_ads.Common.Dict.{Dict, ℕ-Key, Bytes-Key, has, insert}
use go_ads.Subscriptions.{
  Config, Manager, Refusal, mismatched, live_notification_names, commit_notification,
  remove_notification_config,
}
use go_ads.Subscriptions.Delete.{sum_delete_device_notification}

-- Why an entry was skipped: `by_client` for what the Client has given up.
pub data Skip : Type 0 where
  refused : Refusal → Skip
  already_subscribed unresolved without_handle by_client transport_failure stranded : Skip

-- SumNotificationResult
pub record Slot : Type 0 where
  pub error : ℕ
  pub handle : ℕ
  pub skipped : Option Skip

abbrev pub blank : Slot
blank = record { error = 0; handle = 0; skipped = none }

-- An answer, with the symbol cache and the epoch at the time it comes in, and with what others have
-- done to the manager since the answer before.
pub record Answer : Type 0 where
  pub error : ℕ
  pub handle : ℕ
  pub is_skipped : Bool
  pub symbols : Dict Bytes Bytes
  pub same_epoch : Bool
  pub meanwhile : Manager → Manager

-- What becomes of a config before the batch is sent.
pub data Planned : Type 0 where
  skipped_as : Skip → Planned
  requested : Config → Planned

-- What becomes of a request: its slot, and whether its handle was bound.
pub record Outcome : Type 0 where
  pub config : Config
  pub slot : Slot
  pub is_committed : Bool

abbrev pub declined : Config → ℕ → ℕ → Option Skip → Outcome
declined c error handle skipped = record {
  config = c;
  slot = record { error = error; handle = handle; skipped = skipped };
  is_committed = false;
}

module _ (symbol_key : Bytes → Bytes) where
  -- `existing`, then `batchSeen`, then `getSymbol`.
  unfoldable pub plan :
      (Bytes → Bool) → Dict Bytes (Unit {0}) → Dict Bytes (Unit {0}) → List Config → List Planned
  plan resolves existing seen [] = []
  plan resolves existing seen (c ∷ cs) =
      let key = symbol_key c.symbol_name in
      let is_double = has key existing || has key seen in
      let rest = plan resolves existing (if is_double then seen else insert key tt seen) cs in
      (if is_double
        then skipped_as already_subscribed
        else if resolves c.symbol_name
        then requested c
        else skipped_as unresolved)
      ∷ rest

  -- onItem
  unfoldable pub on_item : ℕ → Config → Answer → Manager → Outcome × Manager
  on_item channel c a m0 =
      let m = a.meanwhile m0 in
      let (refusal, m') =
        commit_notification symbol_key a.symbols a.same_epoch c a.handle channel m in
      if a.is_skipped
      then (declined c a.error a.handle (some by_client), m)
      else if a.handle == 0 && a.error == 0
      then (declined c 0 0 (some without_handle), m)
      else if not (a.error == 0)
      then (declined c a.error a.handle none, m)
      else (elim refusal [
        | some r ↦ (declined c 0 a.handle (some (refused r)), m')
        | none ↦ (
          record {
            config = c;
            slot = record { error = a.error; handle = a.handle; skipped = none };
            is_committed = true;
          },
          m',
        )
      ])

  -- The handler is called for the answers in their order; a request without one keeps a blank slot.
  unfoldable pub on_items : ℕ → List Config → List Answer → Manager → List Outcome × Manager
  on_items channel [] answers m = ([], m)
  on_items channel (c ∷ cs) [] m =
      let (os, m') = on_items channel cs [] m in (declined c 0 0 none ∷ os, m')
  on_items channel (c ∷ cs) (a ∷ answers) m =
      let (o, m') = on_item channel c a m in
      let (os, m'') = on_items channel cs answers m' in (o ∷ os, m'')

-- `r.Skipped != nil || r.Handle != 0 || r.Error != 0`
unfoldable pub is_reported : Slot → Bool
is_reported s = elim s.skipped [ some _ ↦ true | none ↦ not (s.handle == 0) || not (s.error == 0) ]

-- Where the Client gave up, the entries without a result are marked.
unfoldable pub mark : Bool → Outcome → Outcome
mark aborted o =
    if aborted && not (is_reported o.slot)
    then record o { slot = record blank { skipped = some transport_failure } }
    else o

unfoldable pub mark_aborted : Bool → List Outcome → List Outcome
mark_aborted aborted [] = []
mark_aborted aborted (o ∷ os) = mark aborted o ∷ mark_aborted aborted os

unfoldable pub strand : Bool → Outcome → Outcome
strand swept o =
    if swept
    then record o { slot = record { error = 0; handle = o.slot.handle; skipped = some stranded } }
    else o

module _ (symbol_key : Bytes → Bytes) (equal_fold : Bytes → Bytes → Bool) where
  -- The amendment: a committed entry that a sweep has taken is none any more.
  unfoldable pub amend : List Outcome → Manager → List Outcome × Manager
  amend [] m = ([], m)
  amend (o ∷ os) m =
      let swept = o.is_committed && not (has o.slot.handle m.active) in
      let cleared = remove_notification_config symbol_key equal_fold o.config.symbol_name m in
      let (rest, m') = amend os (if swept then cleared else m) in (strand swept o ∷ rest, m')

-- The handles that nothing here owns: those that were refused, and those that were swept.
unfoldable pub is_refusal : Option Skip → Bool
is_refusal (some (refused _)) = true
is_refusal _ = false

unfoldable pub is_declined : Outcome → Bool
unfolding is_refusal
is_declined o = not o.is_committed && is_refusal o.slot.skipped

unfoldable pub is_stranded : Outcome → Bool
is_stranded o = elim o.slot.skipped [
  | none ↦ false
  | some _ ↦ o.is_committed && not (o.slot.handle == 0)
]

abbrev pub handles_if : (Outcome → Bool) → List Outcome → List ℕ
handles_if test [] = []
handles_if test (o ∷ os) =
    let rest = handles_if test os in if test o then o.slot.handle ∷ rest else rest

abbrev pub requests_of : List Planned → List Config
requests_of [] = []
requests_of (skipped_as _ ∷ ps) = requests_of ps
requests_of (requested c ∷ ps) = c ∷ requests_of ps

-- The slots in the order of the configs.
unfoldable pub spread : List Planned → List Outcome → List Slot
spread [] os = []
spread (skipped_as why ∷ ps) os = record blank { skipped = some why } ∷ spread ps os
spread (requested c ∷ ps) [] = blank ∷ spread ps []
spread (requested c ∷ ps) (o ∷ os) = o.slot ∷ spread ps os

pub data BatchFault : Type 0 where
  not_running channel_mismatched disconnected batch_aborted : BatchFault

-- The world around a batch: whether the runtime may be asked, which names resolve, whether there is
-- a client, the answers, whether the Client gave up, and what others do before the end, and
-- what the PLC answers to the deletion of the handles that are released.
pub record Around : Type 0 where
  pub may_run : Bool
  pub resolves : Bytes → Bool
  pub connected : Bool
  pub answers : List Answer
  pub aborted : Bool
  pub later : Manager → Manager
  pub release_codes : List ℕ

pub record Batch : Type 0 where
  pub results : List Slot
  pub fault : Option BatchFault
  pub released : List ℕ
  pub settled : Manager  -- before the deletion
  pub manager : Manager

abbrev pub returns : Option BatchFault → Manager → Batch
returns fault m = record { results = []; fault = fault; released = []; settled = m; manager = m }

module _ (symbol_key : Bytes → Bytes) (equal_fold : Bytes → Bytes → Bool) where
  -- From the batch request on; without a client no answer comes.
  unfoldable pub send_batch : Around → ℕ → List Planned → Manager → Batch
  send_batch w channel ps m =
      let answers = if w.connected then w.answers else [] in
      let (outcomes, m1) = on_items symbol_key channel (requests_of ps) answers m in
      let marked = mark_aborted (w.connected && w.aborted) outcomes in
      let (settled, m2) = amend symbol_key equal_fold marked (w.later m1) in
      let released = handles_if is_declined settled ++ handles_if is_stranded settled in
      record {
        results = spread ps settled;
        fault =
            if not w.connected
            then some disconnected
            else if w.aborted
            then some batch_aborted
            else none;
        released = released;
        settled = m2;
        manager =
            sum_delete_device_notification symbol_key equal_fold false released w.release_codes m2;
      }

  unfoldable pub add_symbol_notifications : Around → ℕ → List Config → Manager → Batch
  add_symbol_notifications w channel [] m = returns (if w.may_run then none else some not_running) m
  add_symbol_notifications w channel (c ∷ cs) m =
      let ps =
        plan symbol_key w.resolves (live_notification_names symbol_key m.active) [] (c ∷ cs) in
      let sent = send_batch w channel ps m in
      if not w.may_run
      then returns (some not_running) m
      else if mismatched m.channel channel
      then returns (some channel_mismatched) m
      else (elim (requests_of ps) [
        | [] ↦ record {
          results = spread ps [];
          fault = none;
          released = [];
          settled = m;
          manager = m;
        }
        | _ ∷ _ ↦ sent
      ])
