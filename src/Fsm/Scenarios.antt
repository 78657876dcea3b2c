-- ===== src/Fsm/Scenarios.antt =====
-- Lives of a session's state machine, and the laws of its runs at concrete inputs.
use go_ads.Common.{◌≡◌, refl, [], ◌∷◌, arith}
use go_ads.Fsm.{
  SessionFsm, connected, disconnected, reconnecting, closed, to, once, bump, step, run,
}
use go_ads.Fsm.Runs.{generations, epoch_unchanged}
use go_ads.Fsm.Winners.{winners, one_closer}

abbrev up : SessionFsm
up = record { value = connected; epoch = 7 }

epoch_unchanged_example : generations up (to disconnected ∷ once reconnecting ∷ []) ≡ 0
unfolding run step
epoch_unchanged_example =
    epoch_unchanged up (to disconnected ∷ once reconnecting ∷ []) (omega arith) (omega arith) refl

one_closer_example :
    winners closed up (once reconnecting ∷ once closed ∷ bump ∷ once closed ∷ []) ≡ 1
one_closer_example =
    one_closer up (once reconnecting ∷ once closed ∷ bump ∷ once closed ∷ []) (λ e. cc)
      ((λ e. cc), ((λ e. cc), ((λ e. cc), ((λ e. cc), tt)))) (omega arith)
