-- ===== src/Session/Resubscribe/Samples.antt =====
-- The laws of the attempts to subscribe again at a concrete manager.
use go_ads.Common.{
  ◌≡◌, ◌≢◌, refl, sym, ◌∙◌, true, false, some, [], ◌∷◌, Bytes, All, arith, if-split,
}
use mathlib.Core.Path.{subst}
use go_ads.Subscriptions.Plain.{IsAscii, Plain}
use go_ads.Common.Dict.{Dict, ℕ-Key, Bytes-Key, lookup, eq_text, has, IsDict}
use go_ads.Subscriptions.{
  Manager, Pending, take_notification_handles, has_config, mismatched, reset_configs,
  live_notification_names,
}
use go_ads.Subscriptions.Lockstep.{intent, Lockstep}
use go_ads.Subscriptions.Batch.{Answer, batch_aborted, add_symbol_notifications, plan, send_batch}
use go_ads.Subscriptions.Delete.{sum_delete_device_notification}
use go_ads.Session.Stale.{filter_valid_pending}
use go_ads.Session.Resubscribe.{
  Attempt, done, failed, attempt_batch, resubscribe_notifications, recover_dead_subscriptions,
}
use go_ads.Session.Resubscribe.Laws.{resubscribe_rolls_back}
use go_ads.Session.Resubscribe.Intent.{recover_keeps_intent}

abbrev same : Bytes → Bytes
same s = s

abbrev a : Bytes
a = b'a' ∷ []

abbrev b : Bytes
b = b'b' ∷ []

abbrev entry : Bytes → Pending
entry name = record {
  config = record { symbol_name = name; mode = 4; max_delay = 0; cycle_time = 100000 };
  resubscribe_attempts = 0;
}

-- Two entries on file, and none of them active.
abbrev two : Manager
two = record {
  active = [];
  pending = entry a ∷ entry b ∷ [];
  configs_by_key = (a, tt) ∷ (b, tt) ∷ [];
  channel = some 1;
  registered = 2;
  heartbeat_handle = 9;
}

two-Lockstep : Lockstep same two
unfolding intent IsDict has eq_text
two-Lockstep = record { single = (refl, (refl, tt)); indexed = λ k. refl }

-- The PLC creates a handle for the first, and then the connection is lost.
abbrev cache : Dict Bytes Bytes
cache = (a, a) ∷ (b, b) ∷ []

a-IsAscii : IsAscii a
a-IsAscii = (omega arith, tt)

b-IsAscii : IsAscii b
b-IsAscii = (omega arith, tt)

two-Plain : Plain two
two-Plain = record { configs = (a-IsAscii, (b-IsAscii, tt)); entries = tt }

cache-IsAscii : (name full_name : Bytes) → lookup name cache ≡ some full_name → IsAscii full_name
unfolding lookup
cache-IsAscii name full_name e =
    if-split (λ x. x ≡ some full_name → IsAscii full_name) (eq_text name a)
      (λ _ f. let g : a ≡ full_name = cc in subst IsAscii g a-IsAscii)
      (λ _ f.
        if-split (λ x. x ≡ some full_name → IsAscii full_name) (eq_text name b)
          (λ _ f. let g : b ≡ full_name = cc in subst IsAscii g b-IsAscii) (λ _ f. absurd cc) f)
      e

abbrev reply : Answer
reply = record {
  error = 0;
  handle = 11;
  is_skipped = false;
  symbols = cache;
  same_epoch = true;
  meanwhile = λ m. m;
}

abbrev attempt : Attempt
attempt = record {
  symbols = cache;
  on_demand = [];
  around = record {
    may_run = true;
    resolves = λ name. true;
    connected = true;
    answers = reply ∷ [];
    aborted = true;
    later = λ m. m;
    release_codes = [];
  };
  orphan_codes = [];
  rollback_codes = [];
}

resubscribe_rolls_back_example :
    ((resubscribe_notifications same eq_text attempt two).1.pending ≡ two.pending)
    × ((resubscribe_notifications same eq_text attempt two).1.channel ≡ some 1)
    × (has 11 (resubscribe_notifications same eq_text attempt two).1.active ≡ false)
unfolding resubscribe_notifications filter_valid_pending eq_text has attempt_batch
    add_symbol_notifications mismatched reset_configs plan live_notification_names send_batch
resubscribe_rolls_back_example =
    resubscribe_rolls_back same eq_text attempt two 11 batch_aborted refl refl

is_failed : (recover_dead_subscriptions same eq_text false false [] attempt two).0 ≡ failed
unfolding recover_dead_subscriptions take_notification_handles sum_delete_device_notification
    resubscribe_notifications filter_valid_pending eq_text has attempt_batch
    add_symbol_notifications mismatched reset_configs plan live_notification_names send_batch
is_failed = refl

is_not_done : (recover_dead_subscriptions same eq_text false false [] attempt two).0 ≢ done
is_not_done e = let c : failed ≡ done = sym is_failed ∙ e in absurd cc

recover_keeps_intent_example :
    All
      (λ p.
        has_config same p.config.symbol_name
          (recover_dead_subscriptions same eq_text false false [] attempt two).1
        ≡ true)
      two.pending
    × Lockstep same (recover_dead_subscriptions same eq_text false false [] attempt two).1
recover_keeps_intent_example =
    recover_keeps_intent same eq_text (λ x y i j. refl) false false [] attempt two
      ((((λ m l. l), cache-IsAscii), tt), (λ m l. l)) (two-Lockstep, two-Plain) is_not_done
