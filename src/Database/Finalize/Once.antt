-- ===== src/Database/Finalize/Once.antt =====
-- finalizePaymentSuccess as a whole: a payment is made completely or not at all, and at most once.
use paid_server.Base.{
  ℕ, ◌≡◌, refl, ◌⊎◌, inl, inr, Text, text, Bool, true, false, List, [], ◌∷◌, none, some, arith,
  same_iff, All,
}
use paid_server.Database.Rows.{
  PaymentFinalizeInput, Tables, OrderInfo, AccountInfo, PaymentAttemptResult,
}
use paid_server.Database.Monad.{State, ok}
use paid_server.Database.Tables.{first, count_one-holds, first-update_row}
use paid_server.Database.Queries.{has_order_sn, has_account_id, has_request_id, set_result}
use paid_server.Database.Ends.{Ends, Outside, Heard, weaken, either_way}
use paid_server.Database.Finalize.{reject, duplicate, finalize_payment_success, session_verdict}
use paid_server.Database.Finalize.Checks.{decide}
use paid_server.Database.Finalize.Outcome.{Effect, paid_tables, finalize_payment_success-Ends}
use paid_server.Database.Finalize.Payable.{IsPayable, IsKeyed, decide-eq-proceed_iff}
use paid_server.Database.Finalize.Paid.{IsPaid, paid_tables-IsPaid}
use paid_server.Database.Finalize.Progress.{
  calm, finalize_payment_success-pays, finalize_payment_success-rejects,
}

module _ (i : PaymentFinalizeInput) (old : Tables) (n : ℕ) where
  -- What a caller may conclude from the answer.
  abbrev pub Concluded : Bool → Tables → Type 0
  Concluded true t =
      ((p : IsPayable i old) × IsPaid i n old t p) ⊎ ((decide i old ≡ duplicate) × (t ≡ old))
  Concluded false t =
      (t ≡ old)
      ⊎ ((reason : Text) × (t ≡ set_result i.request_id PaymentAttemptResult.failed reason n old))

  Effect-Concluded : IsKeyed old → (b : Bool) (t : Tables) → Effect i old n b t → Concluded b t
  Effect-Concluded k false t e = e
  Effect-Concluded k true t (inl e) = inr e
  Effect-Concluded k true t (inr (d, one, e)) =
      let p = (decide-eq-proceed_iff i old).0 d in
      inl (p, rw e (paid_tables-IsPaid i n old p (result_zero p)))
    where
      result_zero : (p : IsPayable i old) → (p.attempt.0).result ≡ 0
      result_zero p = ground (
        arith,
        count_one-holds (has_request_id i.request_id) _ old.attempts (λ y h. ground arith)
            (k.attempt _) p.attempt.1 one.attempt,
      )

  -- Where no reply of the database is lost and the keys of the tables are unique, and whatever else
  -- fails: a call that returns true has found a payable order and left the four rows of the payment
  -- as paid, and all other rows as they were, or has found the attempt successful already and
  -- changed nothing. A call that returns false has changed nothing, or marked the attempt as failed.
  -- A call that throws has changed nothing. No transaction is left open.
  pub finalize_payment_success-Concluded :
      (s : State)
      → Outside old n s
      → IsKeyed old
      → Ends
          (λ b s'. Outside s'.tables n s' × Concluded b s'.tables)
          (Outside old n)
          (finalize_payment_success i s)
  finalize_payment_success-Concluded s h k =
      weaken _ _ _ _ _ (finalize_payment_success-Ends i old n s h)
        (λ b s' (o, e). (o, Effect-Concluded k b s'.tables e)) (λ s' o. o)

-- An order that is paid and an account that is sold.
pub record IsDone (o : OrderInfo) (a : AccountInfo) (t : Tables) : Type 0 where
  pub order : first (has_order_sn o.order_sn) t.orders ≡ some o
  pub account : first (has_account_id a.account_id) t.accounts ≡ some a

module _ (o : OrderInfo) (a : AccountInfo) (paid : o.status ≡ 1) (sold : a.status ≡ 2) where
  Effect-IsDone :
      (i : PaymentFinalizeInput) (old : Tables) (n : ℕ) (b : Bool) (t : Tables)
      → IsDone o a old
      → Effect i old n b t
      → IsDone o a t
  Effect-IsDone i old n true t d (inl (_, e)) = rw e d
  Effect-IsDone i old n true t d (inr (_, _, e)) = rw e (record {
    order =
        first-update_row (has_order_sn o.order_sn) _ _ old.orders (λ _. refl) d.order
          (ground arith);
    account =
        first-update_row (has_account_id a.account_id) _ _ old.accounts (λ _. refl) d.account
          (ground arith);
  })
  Effect-IsDone i old n false t d (inl e) = rw e d
  Effect-IsDone i old n false t d (inr (_, e)) =
      rw e (record { order = d.order; account = d.account })

  abbrev Stays : ℕ → State → Type 0
  Stays n s = Outside s.tables n s × IsDone o a s.tables

  finalize_payment_success-Stays :
      (i : PaymentFinalizeInput) (n : ℕ) (s : State)
      → Stays n s
      → Stays n (finalize_payment_success i s).1
  finalize_payment_success-Stays i n s (h, d) = either_way (Stays n) _ (
      weaken _ _ _ _ _ (finalize_payment_success-Ends i s.tables n s h)
        (λ b s' (k, e). (k, Effect-IsDone i s.tables n b s'.tables d e))
        (λ s' k. (
          record { tables = refl; backup = k.backup; now = k.now; heard = k.heard },
          rw k.tables d,
        )))

  -- Calls at the given times, each on the state that the one before it left.
  abbrev pub finalize_each : List (ℕ × PaymentFinalizeInput) → State → State
  finalize_each [] s = s
  finalize_each ((n, i) ∷ is) s =
      finalize_each is (finalize_payment_success i (record s { now = n })).1

  -- Where no reply of the database is lost, an order that is paid and an account that is sold keep
  -- their rows under any further calls, whatever these ask for and whatever fails in them.
  pub finalize_each-IsDone :
      (is : List (ℕ × PaymentFinalizeInput)) (s : State)
      → s.backup ≡ none
      → All Heard s.faults
      → IsDone o a s.tables
      → IsDone o a (finalize_each is s).tables
  finalize_each-IsDone [] s b h d = d
  finalize_each-IsDone ((n, i) ∷ is) s b h d =
      let (out, done) =
        finalize_payment_success-Stays i n (record s { now = n })
          (record { tables = refl; backup = b; now = refl; heard = h }, d) in
      finalize_each-IsDone is (finalize_payment_success i (record s { now = n })).1 out.backup
        out.heard done

decide_again :
    (i : PaymentFinalizeInput) (t : Tables) (n : ℕ) (p : IsPayable i t)
    → (p.attempt.0).result ≡ 0
    → decide i (paid_tables i n t) ≡ reject (text "SESSION_NOT_PAYABLE")
unfolding session_verdict
decide_again i t n p e =
    let row = (paid_tables-IsPaid i n t p e).session in
    let ok' = (p.session.2) in
    rw row (
      ground (
        arith,
        same_iff (p.session.0).order_sn i.order_sn,
        same_iff (p.session.0).account_id i.account_id,
        same_iff (p.session.0).buyer_id i.buyer_id,
      ))

-- Where all statements run and the keys are unique: a call that is payable pays and returns true,
-- and the same call once more returns false and marks the successful attempt as failed, with the
-- reason SESSION_NOT_PAYABLE.
pub finalize_payment_success-again :
    (i : PaymentFinalizeInput) (t : Tables) (n m k : ℕ) (p : IsPayable i t)
    → (p.attempt.0).result ≡ 0
    → IsKeyed t
    → (finalize_payment_success i (calm t n k) ≡ (ok true, calm (paid_tables i n t) n k))
      × (finalize_payment_success i (calm (paid_tables i n t) m k) ≡ (
        ok false,
        calm
            (set_result i.request_id PaymentAttemptResult.failed
              (text "SESSION_NOT_PAYABLE")
              m
              (paid_tables i n t))
            m
            k,
      ))
finalize_payment_success-again i t n m k p e u = (
  finalize_payment_success-pays i t n k p e u,
  finalize_payment_success-rejects i (paid_tables i n t) m k _ (decide_again i t n p e),
)
