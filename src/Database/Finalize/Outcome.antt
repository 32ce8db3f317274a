-- ===== src/Database/Finalize/Outcome.antt =====
-- What finalizePaymentSuccess does to the database, under any faults: it pays, or leaves all but the
-- attempt's result as it was.
use paid_server.Base.{ℕ, ◌≡◌, refl, sym, ◌⊎◌, inl, inr, Text, Bool, true, false, arith}
use paid_server.Database.Rows.{PaymentFinalizeInput, Tables, PaymentAttemptResult}
use paid_server.Database.Monad.{State, rollback, execute_affected, acquire}
use paid_server.Database.Tables.{update, count}
use paid_server.Database.Queries.{set_result, update_payment_attempt_result}
use paid_server.Database.Ends.{
  Ends, Inside, Outside, Recoverable, Inside-Recoverable, continue-Ends, sequence, ended,
  recover-Ends, execute_affected-Ends, begin-Ends, commit-Ends, rollback-Outside, acquire-Ends,
}
use paid_server.Database.Finalize.{
  Verdict, reject, reject_quietly, duplicate, proceed, apply_updates, settle, finish, give_up,
  transaction, finalize_payment_success, mark_attempt_failed_no_throw, payable_order, paid_order,
  payable_account, sold_account, payable_session, paid_session, open_attempt, succeeded_attempt,
  pay_order, sell_account, pay_session, close_attempt,
}
use paid_server.Database.Finalize.Checks.{decide, locked_checks-Decides}

-- The effect of the four updates.
abbrev pub paid_tables : PaymentFinalizeInput → ℕ → Tables → Tables
paid_tables i now t = record t {
  orders = update (payable_order i.order_sn) (paid_order now) t.orders;
  accounts = update (payable_account i.account_id) (sold_account now) t.accounts;
  sessions = update (payable_session i.payment_session_id) (paid_session now) t.sessions;
  attempts = update (open_attempt i.request_id) (succeeded_attempt now) t.attempts;
}

-- Each update hits one row.
pub record OneEach (i : PaymentFinalizeInput) (t : Tables) : Type 0 where
  pub order : count (payable_order i.order_sn) t.orders ≡ 1
  pub account : count (payable_account i.account_id) t.accounts ≡ 1
  pub session : count (payable_session i.payment_session_id) t.sessions ≡ 1
  pub attempt : count (open_attempt i.request_id) t.attempts ≡ 1

module _ (i : PaymentFinalizeInput) (old : Tables) (n : ℕ) where
  apply_updates-Ends :
      (s : State)
      → s.tables ≡ old
      → Inside old n s
      → Ends
          (λ b s'. (b ≡ true → OneEach i old) × (s'.tables ≡ paid_tables i n old) × Inside old n s')
          (Inside old n)
          (apply_updates i s)
  unfolding apply_updates
  apply_updates-Ends s e h =
      sequence _ _ _ _ _ (execute_affected-Ends old n s (pay_order i.order_sn) h)
        λ a s₁ (ea, e₁, h₁).
          sequence _ _ _ _ _ (execute_affected-Ends old n s₁ (sell_account i.account_id) h₁)
            λ b s₂ (eb, e₂, h₂).
              sequence _ _ _ _ _
                (execute_affected-Ends old n s₂ (pay_session i.payment_session_id) h₂)
                λ c s₃ (ec, e₃, h₃).
                  sequence _ _ _ _ _
                    (execute_affected-Ends old n s₃ (close_attempt i.request_id) h₃)
                    λ d s₄ (ed, e₄, h₄). ended _ _ (ground arith, ground arith, h₄)

  -- The tables that a result leaves: the four rows paid, or the tables untouched for a request that
  -- had succeeded before; the attempt marked as failed at most.
  abbrev pub Effect : Bool → Tables → Type 0
  Effect true t =
      ((decide i old ≡ duplicate) × (t ≡ old))
      ⊎ ((decide i old ≡ proceed) × OneEach i old × (t ≡ paid_tables i n old))
  Effect false t =
      (t ≡ old)
      ⊎ ((reason : Text) × (t ≡ set_result i.request_id PaymentAttemptResult.failed reason n old))

  abbrev pub Settled : Bool → State → Type 0
  Settled b s = Outside s.tables n s × Effect b s.tables

  settled : (b : Bool) {t : Tables} {s : State} → Outside t n s → Effect b t → Settled b s
  settled b k e =
      (record { tables = refl; backup = k.backup; now = k.now; heard = k.heard }, rw k.tables e)

  mark-Effect :
      (s : State) (reason : Text)
      → Outside old n s
      → ((mark_attempt_failed_no_throw i.request_id reason s).1.tables ≡ old)
        ⊎ ((mark_attempt_failed_no_throw i.request_id reason s).1.tables
            ≡ set_result i.request_id PaymentAttemptResult.failed reason n old)
  unfolding mark_attempt_failed_no_throw update_payment_attempt_result acquire execute_affected
  mark-Effect s reason h = ground arith

  mark-Settled :
      (s : State) (reason : Text)
      → Outside old n s
      → Settled false (mark_attempt_failed_no_throw i.request_id reason s).1
  unfolding mark_attempt_failed_no_throw update_payment_attempt_result acquire execute_affected
  mark-Settled s reason h =
      (ground arith, elim (mark-Effect s reason h) [ inl e ↦ inl e | inr e ↦ inr (reason, e) ])

  give_up-Ends :
      (E : State → Type 0) (reason : Text) (s : State)
      → Recoverable old n s
      → Ends Settled E (give_up i.request_id reason s)
  unfolding mark_attempt_failed_no_throw rollback
  give_up-Ends E reason s h = ended _ _ (mark-Settled _ reason (rollback-Outside old n s h))

  finish-Ends :
      (b : Bool) (s : State)
      → decide i old ≡ proceed
      → (b ≡ true → OneEach i old)
      → s.tables ≡ paid_tables i n old
      → Inside old n s
      → Ends Settled (Recoverable old n) (finish i b s)
  finish-Ends true s d one e h =
      continue-Ends _ _ _ _ _ _ (commit-Ends old n s h)
        (λ _ s' k. ended _ _ (settled true k (inr (d, one refl, e)))) (λ s' k. Inside-Recoverable k)
  finish-Ends false s d one e h = give_up-Ends (Recoverable old n) _ s (Inside-Recoverable h)

  settle-Ends :
      (v : Verdict) (s : State)
      → v ≡ decide i old
      → s.tables ≡ old
      → Inside old n s
      → Ends Settled (Recoverable old n) (settle i v s)
  unfolding rollback
  settle-Ends (reject r) s d e h = give_up-Ends (Recoverable old n) r s (Inside-Recoverable h)
  settle-Ends reject_quietly s d e h =
      let k = rollback-Outside old n s (Inside-Recoverable h) in
      ended _ _ (settled false k (inl refl))
  settle-Ends duplicate s d e h =
      continue-Ends _ _ _ _ _ _ (commit-Ends old n s h)
        (λ _ s' k. ended _ _ (settled true k (inl (sym d, e)))) (λ s' k. Inside-Recoverable k)
  settle-Ends proceed s d e h =
      continue-Ends _ _ _ _ _ _ (apply_updates-Ends s e h)
        (λ b s' (one, e', h'). finish-Ends b s' (sym d) one e' h') (λ s' k. Inside-Recoverable k)

  transaction-Ends :
      (s : State) → Outside old n s → Ends Settled (Recoverable old n) (transaction i s)
  unfolding transaction
  transaction-Ends s h = sequence _ _ _ _ _ (begin-Ends old n s h) λ _ s₁ u.
      continue-Ends _ _ _ _ _ _ (locked_checks-Decides old n i s₁ u)
        (λ v s₂ (d, (e, k)). settle-Ends v s₂ d e k) (λ s₂ k. Inside-Recoverable k)

  -- Where no reply of the server is lost, and whatever else fails: a call that returns true has
  -- found all the checks passed and changed exactly the four rows, or has found the attempt
  -- successful already and changed nothing; one that returns false has at most marked the attempt
  -- as failed; one that throws has changed nothing. No transaction is left open.
  pub finalize_payment_success-Ends :
      (s : State) → Outside old n s → Ends Settled (Outside old n) (finalize_payment_success i s)
  unfolding finalize_payment_success
  finalize_payment_success-Ends s h =
      sequence _ _ _ _ _ (acquire-Ends old n s h)
        λ _ s₁ k. recover-Ends _ _ _ _ _ (transaction-Ends s₁ k) (λ _ s₂ r. give_up-Ends _ _ s₂ r)
