-- ===== src/Payment/Steps.antt =====
-- How the calls of the database end inside a handler of Payment: what they answer, and what they
-- leave of the world.
use paid_server.Base.{
  ℕ, ◌≡◌, refl, Text, Bool, true, false, if◌then◌else◌, List, Option, none, some, arith,
}
use paid_server.Database.Rows.{Tables, PaymentAttemptResult}
use paid_server.Database.Monad.{Result, ok, throws, State, acquire, select, execute_affected}
use paid_server.Database.Tables.{first}
use paid_server.Database.Ends.{Ends, Outside, weaken}
use paid_server.Database.Queries.{
  get_user_by_user_id, get_order_by_sn, get_account_by_id, get_payment_session_by_id,
  get_payment_attempt_by_request_id, update_payment_attempt_result, has_user_id, has_order_sn,
  has_account_id, has_session_id, has_request_id,
}
use paid_server.Payment.Replies.{found}
use paid_server.Payment.World.{World, on_db, with_db}

-- The world between two calls: the tables, the time of the database, the clock and the notifications.
pub record Idle (t : Tables) (n clock : ℕ) (log : List (Text × Text)) (w : World) : Type 0 where
  pub db : Outside t n w.db
  pub clock_kept : w.clock ≡ clock
  pub log_kept : w.notified ≡ log

-- A call that answers with g of the tables, and changes nothing.
abbrev pub Reads : {A : Type 0} → (State → Result A × State) → (Tables → A) → Type 0
Reads q g =
    (t : Tables) (n : ℕ) (s : State)
    → Outside t n s
    → Ends (λ a s'. (a ≡ g t) × Outside t n s') (Outside t n) (q s)

pub get_user_by_user_id-Reads :
    (k : Text) → Reads (get_user_by_user_id k) (λ t. first (has_user_id k) t.users)
unfolding get_user_by_user_id acquire select Ends
get_user_by_user_id-Reads k t n s h = ground arith

pub get_order_by_sn-Reads :
    (k : Text) → Reads (get_order_by_sn k) (λ t. first (has_order_sn k) t.orders)
unfolding get_order_by_sn acquire select Ends
get_order_by_sn-Reads k t n s h = ground arith

pub get_account_by_id-Reads :
    (k : Text) → Reads (get_account_by_id k) (λ t. first (has_account_id k) t.accounts)
unfolding get_account_by_id acquire select Ends
get_account_by_id-Reads k t n s h = ground arith

pub get_payment_session_by_id-Reads :
    (k : Text) → Reads (get_payment_session_by_id k) (λ t. first (has_session_id k) t.sessions)
unfolding get_payment_session_by_id acquire select Ends
get_payment_session_by_id-Reads k t n s h = ground arith

pub get_payment_attempt_by_request_id-Reads :
    (k : Text)
    → Reads (get_payment_attempt_by_request_id k) (λ t. first (has_request_id k) t.attempts)
unfolding get_payment_attempt_by_request_id acquire select Ends
get_payment_attempt_by_request_id-Reads k t n s h = ground arith

-- The update of a result touches no other table, whether or not it fails.
pub record Untouched (t t' : Tables) : Type 0 where
  pub users : t'.users ≡ t.users
  pub orders : t'.orders ≡ t.orders
  pub accounts : t'.accounts ≡ t.accounts
  pub sessions : t'.sessions ≡ t.sessions

pub Untouched-refl : (t : Tables) → Untouched t t
Untouched-refl t = record { users = refl; orders = refl; accounts = refl; sessions = refl }

pub update_payment_attempt_result-Untouched :
    (k : Text) (result : PaymentAttemptResult) (reason : Text) (n : ℕ) (s : State)
    → Outside s.tables n s
    → Untouched s.tables (update_payment_attempt_result k result reason s).1.tables
unfolding update_payment_attempt_result acquire execute_affected
update_payment_attempt_result-Untouched k result reason n s h = ground arith

module _ {A : Type 0} (t : Tables) (n clock : ℕ) (log : List (Text × Text)) where
  -- A database call inside the world.
  pub on_db-Ends :
      (Q : A → State → Type 0) (E : State → Type 0) (m : State → Result A × State) (w : World)
      → Idle t n clock log w
      → Ends Q E (m w.db)
      → Ends
          (λ a w'. Q a w'.db × ((w'.clock ≡ clock) × (w'.notified ≡ log)))
          (λ w'. E w'.db × ((w'.clock ≡ clock) × (w'.notified ≡ log)))
          (on_db m w)
  unfolding Ends
  on_db-Ends Q E m w h e = keeps (m w.db) e
    where
      keeps :
          (r : Result A × State)
          → Ends Q E r
          → Ends
              (λ a w'. Q a w'.db × ((w'.clock ≡ clock) × (w'.notified ≡ log)))
              (λ w'. E w'.db × ((w'.clock ≡ clock) × (w'.notified ≡ log)))
              (with_db w r)
      keeps (ok a, s) q = (q, (h.clock_kept, h.log_kept))
      keeps (throws x, s) q = (q, (h.clock_kept, h.log_kept))

  pub on_db-Reads :
      (q : State → Result A × State) (g : Tables → A) (w : World)
      → Reads q g
      → Idle t n clock log w
      → Ends (λ a w'. (a ≡ g t) × Idle t n clock log w') (Idle t n clock log) (on_db q w)
  on_db-Reads q g w r h =
      weaken _ _ _ _ _ (on_db-Ends _ _ q w h (r t n w.db h.db))
        (λ a w' ((e, d), (k, l)). (e, record { db = d; clock_kept = k; log_kept = l }))
        (λ w' (d, (k, l)). record { db = d; clock_kept = k; log_kept = l })

-- The world after an update of a result: all but the attempts are as before.
pub record Kept (t : Tables) (log : List (Text × Text)) (w : World) : Type 0 where
  pub rows : Untouched t w.db.tables
  pub log_kept : w.notified ≡ log

either : {S A : Type 0} (P : S → Type 0) (r : Result A × S) → P r.1 → Ends (λ _. P) P r
unfolding Ends
either P (ok a, s) h = h
either P (throws e, s) h = h

pub update-Kept :
    (k : Text) (result : PaymentAttemptResult) (reason : Text) (n : ℕ) (w : World)
    → Outside w.db.tables n w.db
    → Ends
        (λ _. Kept w.db.tables w.notified)
        (Kept w.db.tables w.notified)
        (on_db (update_payment_attempt_result k result reason) w)
update-Kept k result reason n w h = either _ _ (
    kept (update_payment_attempt_result k result reason w.db)
      (update_payment_attempt_result-Untouched k result reason n w.db h))
  where
    kept :
        (r : Result Bool × State)
        → Untouched w.db.tables r.1.tables
        → Kept w.db.tables w.notified (with_db w r).1
    kept (r, s) u = record { rows = u; log_kept = refl }

-- The rules for an early return.
module _ {S A : Type 0} (P : S → Type 0) where
  pub if-Ends :
      (b : Bool) (go early : S → Result A × S) (s : S)
      → (b ≡ true → Ends (λ _. P) P (go s))
      → (b ≡ false → Ends (λ _. P) P (early s))
      → Ends (λ _. P) P ((if b then go else early) s)
  if-Ends true go early s h k = h refl
  if-Ends false go early s h k = k refl

  pub found-Ends :
      {B : Type 0} (o : Option B) (test : B → Bool) (early : S → Result A × S)
      (go : B → S → Result A × S) (s : S)
      → Ends (λ _. P) P (early s)
      → ((b : B) → o ≡ some b → test b ≡ true → Ends (λ _. P) P (go b s))
      → Ends (λ _. P) P (found o test early go s)
  found-Ends none test early go s h k = h
  found-Ends (some b) test early go s h k =
      if-Ends (test b) (go b) early s (λ e. k b refl e) (λ _. h)
