-- ===== src/Database/Finalize/Progress.antt =====
-- finalizePaymentSuccess where every statement runs: it pays what is payable, and what it has paid
-- stays paid.
use paid_server.Base.{ℕ, ◌≡◌, refl, Text, true, false, [], none, some, arith}
use paid_server.Database.Rows.{PaymentFinalizeInput, Tables, PaymentAttemptResult}
use paid_server.Database.Monad.{
  State, ok, acquire, select, execute_affected, begin, commit, rollback,
}
use paid_server.Database.Queries.{set_result, update_payment_attempt_result}
use paid_server.Database.Finalize.{
  proceed, reject, locked_checks, apply_updates, transaction, finalize_payment_success,
  mark_attempt_failed_no_throw,
}
use paid_server.Database.Finalize.Checks.{decide}
use paid_server.Database.Finalize.Outcome.{OneEach, paid_tables}
use paid_server.Database.Finalize.Payable.{
  IsPayable, IsKeyed, IsPayable-OneEach, decide-eq-proceed_iff,
}

-- A server outside any transaction whose statements all run.
abbrev pub calm : Tables → ℕ → ℕ → State
calm t n k = record { tables = t; backup = none; now = n; next_id = k; faults = [] }

abbrev working : Tables → Tables → ℕ → ℕ → State
working old t n k = record { tables = t; backup = some old; now = n; next_id = k; faults = [] }

module _ (i : PaymentFinalizeInput) (old : Tables) (n k : ℕ) where
  locked_checks-working :
      locked_checks i (working old old n k) ≡ (ok (decide i old), working old old n k)
  unfolding locked_checks select
  locked_checks-working = ground arith

  apply_updates-working :
      OneEach i old
      → apply_updates i (working old old n k) ≡ (ok true, working old (paid_tables i n old) n k)
  unfolding apply_updates execute_affected
  apply_updates-working h = ground arith

  transaction-calm :
      decide i old ≡ proceed
      → OneEach i old
      → transaction i (calm old n k) ≡ (ok true, calm (paid_tables i n old) n k)
  unfolding transaction begin commit
  transaction-calm d h = rw (locked_checks-working, d, apply_updates-working h) refl

  -- Where all statements run, the keys are unique and the attempt is processing, a call that is
  -- payable returns true, and the tables are those of the payment.
  pub finalize_payment_success-pays :
      (p : IsPayable i old)
      → (p.attempt.0).result ≡ 0
      → IsKeyed old
      → finalize_payment_success i (calm old n k) ≡ (ok true, calm (paid_tables i n old) n k)
  unfolding finalize_payment_success acquire
  finalize_payment_success-pays p e u =
      rw (transaction-calm ((decide-eq-proceed_iff i old).1 p) (IsPayable-OneEach i old u p e)) refl

  -- Where all statements run, a call that the checks reject with a reason returns false, and marks
  -- the attempt as failed with that reason; nothing else changes.
  pub finalize_payment_success-rejects :
      (r : Text)
      → decide i old ≡ reject r
      → finalize_payment_success i (calm old n k)
        ≡ (ok false, calm (set_result i.request_id PaymentAttemptResult.failed r n old) n k)
  unfolding finalize_payment_success transaction acquire begin rollback mark_attempt_failed_no_throw
      update_payment_attempt_result execute_affected
  finalize_payment_success-rejects r d = rw (locked_checks-working, d) refl
