-- ===== src/Database/Monad.antt =====
-- One MySQL connection as an action on the server's state, with exceptions.
-- backend/common/mysql_pool.hpp: begin, commit, rollback, execute, executeAffected, queryRows and
-- acquire. Each takes the next fault of a schedule that the environment chooses.
use paid_server.Base.{ℕ, suc, Text, text, List, [], ◌∷◌, Option, none, some}
use paid_server.Database.Rows.{Tables}

pub data Result {ℓ} (A : Type ℓ) : Type ℓ where
  ok : A → Result A
  throws : Text → Result A

abbrev pub Action : Type 0 → Type 0 → Type 0
Action S A = S → Result A × S

abbrev pub continue : {S A B : Type 0} → Result A × S → (A → S → Result B × S) → Result B × S
continue (ok a, s) k = k a s
continue (throws e, s) k = (throws e, s)

abbrev pub pure : {S A : Type 0} → A → S → Result A × S
pure a s = (ok a, s)

infixl 5 ◌>>=◌ ◌>>◌
abbrev pub ◌>>=◌ : {S A B : Type 0} → (S → Result A × S) → (A → S → Result B × S) → S → Result B × S
◌>>=◌ m k s = continue (m s) k

abbrev pub ◌>>◌ :
    {S B : Type 0} → (S → Result (Unit {0}) × S) → (S → Result B × S) → S → Result B × S
◌>>◌ m k s = continue (m s) (λ _. k)

abbrev pub recover : {S A : Type 0} → Result A × S → (Text → S → Result A × S) → Result A × S
recover (ok a, s) h = (ok a, s)
recover (throws e, s) h = h e s

-- try { m } catch (const std::exception& e) { h(e) }
abbrev pub try_catch :
    {S A : Type 0} → (S → Result A × S) → (Text → S → Result A × S) → S → Result A × S
try_catch m h s = recover (m s) h

-- What happens to one statement: it runs; the server refuses it; the server runs it and the reply
-- is lost. In the last two the client sees an error.
pub data Fault : Type 0 where
  fine : Fault
  refused lost : Text → Fault

pub record State : Type 0 where
  pub tables : Tables
  -- The tables at START TRANSACTION, while a transaction is open.
  pub backup : Option Tables
  pub now : ℕ
  -- AUTO_INCREMENT.
  pub next_id : ℕ
  -- What happens to the coming statements; all goes well when the list is used up.
  pub faults : List Fault

abbrev pub next_fault : List Fault → Fault
next_fault [] = fine
next_fault (f ∷ fs) = f

abbrev pub later_faults : List Fault → List Fault
later_faults [] = []
later_faults (f ∷ fs) = fs

abbrev pub after_fault : {A : Type 0} → Fault → A → State → State → Result A × State
after_fault fine a done old = (ok a, done)
after_fault (refused e) a done old = (throws e, old)
after_fault (lost e) a done old = (throws e, done)

-- The statement's effect `done` and its answer `a`, under the next fault.
unfoldable pub statement : {A : Type 0} → (State → A) → (State → State) → State → Result A × State
statement answer effect s =
    after_fault (next_fault s.faults) (answer s)
      (record (effect s) { faults = later_faults s.faults })
      (record s { faults = later_faults s.faults })

-- acquire(): a connection, or an exception.
unfoldable pub acquire : State → Result (Unit {0}) × State
unfolding statement
acquire = statement (λ _. tt) (λ s. s)

-- queryRows(): a SELECT changes nothing.
unfoldable pub select : {A : Type 0} → (State → A) → State → Result A × State
unfolding statement
select f = statement f (λ s. s)

-- execute() and executeAffected(): the new tables, and the number of rows changed.
unfoldable pub execute_affected : (State → Tables × ℕ) → State → Result ℕ × State
unfolding statement
execute_affected f = statement (λ s. (f s).1) (λ s. record s { tables = (f s).0 })

unfoldable pub begin : State → Result (Unit {0}) × State
unfolding statement
begin = statement (λ _. tt) (λ s. record s { backup = some s.tables })

unfoldable pub commit : State → Result (Unit {0}) × State
unfolding statement
commit = statement (λ _. tt) (λ s. record s { backup = none })

abbrev pub restored : Tables → Option Tables → Tables
restored t none = t
restored t (some old) = old

-- rollback() swallows its own error: the server drops an open transaction in either case.
unfoldable pub rollback : State → Result (Unit {0}) × State
rollback s = (
  ok tt,
  record s { tables = restored s.tables s.backup; backup = none; faults = later_faults s.faults },
)

-- The server refuses the statement.
unfoldable pub refuse : {A : Type 0} → Text → State → Result A × State
refuse e s = (throws e, record s { faults = later_faults s.faults })

-- An INSERT: the server refuses a duplicate of a UNIQUE key.
unfoldable pub execute_insert : (State → Option Tables) → State → Result (Unit {0}) × State
unfolding statement refuse
execute_insert f s = elim (f s) [
  | none ↦ refuse (text "Duplicate entry") s
  | some t ↦ statement (λ _. tt) (λ r. record r { tables = t; next_id = suc r.next_id }) s
]
