-- ===== src/Observer/Worker.antt =====
-- src/observer/mod.rs: `SSMPWorker`. Its `run` does nothing.
use frost_substrate.Prelude.{List, [], ◌∷◌, ok, err, error, panic}
use frost_substrate.External.Float.{Float}
use frost_substrate.Observer.{Observer}
use frost_substrate.Observer.Notify.{FinalityNotification, Env, Run, handle_finality_notification}

pub record SsmpWorker (C P M V F : Type 0) : Type 0 where
  pub observer : Observer C P M V F

abbrev pub new_worker : {C P M V F : Type 0} → Observer C P M V F → SsmpWorker C P M V F
new_worker observer = record { observer = observer }

abbrev pub run : {C P M V F : Type 0} → SsmpWorker C P M V F → List M → List M
run worker sent = sent

module _ {C P M V F Event : Type 0} ⦃fl : Float F⦄ (worker : SsmpWorker C P M V F) where
  -- Each notification of the stream comes with what it is handled in. An error is logged, and what was
  -- sent before it stays sent. A panic is not caught: it ends the loop, and the rest of the stream is lost.
  unfoldable pub run_with_finality_stream :
      List (Env C P M F Event × FinalityNotification) → Run C M
  run_with_finality_stream [] sent = (ok tt, sent)
  run_with_finality_stream ((env, notification) ∷ rest) sent =
      let (r, sent') = handle_finality_notification env worker.observer notification sent in
      elim r [
        | err panic ↦ (err panic, sent')
        | err (error e) ↦ run_with_finality_stream rest sent'
        | ok u ↦ run_with_finality_stream rest sent'
      ]
