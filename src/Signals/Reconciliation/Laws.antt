-- ===== src/Signals/Reconciliation/Laws.antt =====
-- signal.service.ts: what `reconcileHistoricalSignals` resolves and leaves.
use auto_ops.Prelude.{◌≡◌, refl, true, false, not, String, some, ◌<>◌}
use auto_ops.Errors.{bad_request_error}
use auto_ops.Exec.{ok, err, ◌>>=◌}
use auto_ops.Signals.{SignalStore}
use auto_ops.Signals.Reconciliation.{
  HistoricalSignalReconciliationInput, unsupported_key, skipped_result,
  reconcile_historical_signals,
}

-- A scan that did not complete changes nothing, whatever its scope.
pub reconcile_historical_signals-skipped :
    (organization : String) (input : HistoricalSignalReconciliationInput) (w : SignalStore)
    → input.scan_completed ≡ false
    → reconcile_historical_signals organization input w ≡ (ok (skipped_result input), w)
unfolding reconcile_historical_signals ◌>>=◌
reconcile_historical_signals-skipped organization input w e = rw e refl

-- A metadata key that is not supported is refused, and nothing is resolved.
pub reconcile_historical_signals-unsupported :
    (organization key : String) (input : HistoricalSignalReconciliationInput) (w : SignalStore)
    → input.scan_completed ≡ true
    → unsupported_key input.scope.metadata ≡ some key
    → reconcile_historical_signals organization input w
      ≡ (err (bad_request_error ("Unsupported signal reconciliation metadata scope: " <> key)), w)
unfolding reconcile_historical_signals ◌>>=◌
reconcile_historical_signals-unsupported organization key input w completed unsupported =
    let goes_on : not input.scan_completed ≡ false = rw completed refl in
    rw (goes_on, unsupported) refl
