-- ===== src/Database/Ends.antt =====
-- How an action of Database/Monad.antt ends: a postcondition for its value, another for its
-- exception, and the rules for the statements.
use paid_server.Base.{ℕ, ◌≡◌, Text, none, some, All, arith}
use paid_server.Database.Rows.{Tables}
use paid_server.Database.Monad.{
  Result, ok, throws, State, Fault, fine, refused, lost, continue, recover, acquire, select,
  execute_affected, begin, commit, rollback, restored,
}

unfoldable pub Ends : {S A : Type 0} → (A → S → Type 0) → (S → Type 0) → Result A × S → Type 0
Ends Q E (ok a, s) = Q a s
Ends Q E (throws e, s) = E s

module _ {S A B : Type 0} where
  pub continue-Ends :
      (Q : A → S → Type 0) (E : S → Type 0) (Q' : B → S → Type 0) (E' : S → Type 0)
      (r : Result A × S) (k : A → S → Result B × S)
      → Ends Q E r
      → ((a : A) (s : S) → Q a s → Ends Q' E' (k a s))
      → ((s : S) → E s → E' s)
      → Ends Q' E' (continue r k)
  unfolding Ends
  continue-Ends Q E Q' E' (ok a, s) k h next fail = next a s h
  continue-Ends Q E Q' E' (throws e, s) k h next fail = fail s h

  -- The rule for a sequence: both parts fail alike.
  pub sequence :
      (Q : A → S → Type 0) (E : S → Type 0) (Q' : B → S → Type 0) (r : Result A × S)
      (k : A → S → Result B × S)
      → Ends Q E r
      → ((a : A) (s : S) → Q a s → Ends Q' E (k a s))
      → Ends Q' E (continue r k)
  sequence Q E Q' r k h next = continue-Ends Q E Q' E r k h next (λ _ e. e)

module _ {S A : Type 0} where
  -- A value that is there.
  pub ended : (Q : A → S → Type 0) (E : S → Type 0) {a : A} {s : S} → Q a s → Ends Q E (ok a, s)
  unfolding Ends
  ended Q E h = h

  -- A weaker postcondition.
  pub weaken :
      (Q Q' : A → S → Type 0) (E E' : S → Type 0) (r : Result A × S)
      → Ends Q E r
      → ((a : A) (s : S) → Q a s → Q' a s)
      → ((s : S) → E s → E' s)
      → Ends Q' E' r
  unfolding Ends
  weaken Q Q' E E' (ok a, s) h k l = k a s h
  weaken Q Q' E E' (throws e, s) h k l = l s h

  -- What holds however the action ends.
  pub either_way : (P : S → Type 0) (r : Result A × S) → Ends (λ _. P) P r → P r.1
  unfolding Ends
  either_way P (ok a, s) h = h
  either_way P (throws e, s) h = h

  pub recover-Ends :
      (Q : A → S → Type 0) (E E' : S → Type 0) (r : Result A × S) (h : Text → S → Result A × S)
      → Ends Q E r
      → ((e : Text) (s : S) → E s → Ends Q E' (h e s))
      → Ends Q E' (recover r h)
  unfolding Ends
  recover-Ends Q E E' (ok a, s) h p handler = p
  recover-Ends Q E E' (throws e, s) h p handler = handler e s p

-- The client hears of every statement that the server ran.
abbrev pub Heard : Fault → Type 0
Heard fine = Unit
Heard (refused e) = Unit
Heard (lost e) = ⊥

-- Inside a transaction that started at `old`; at time `n`.
pub record Inside (old : Tables) (n : ℕ) (s : State) : Type 0 where
  pub backup : s.backup ≡ some old
  pub now : s.now ≡ n
  pub heard : All Heard s.faults

-- Outside any transaction.
pub record Outside (t : Tables) (n : ℕ) (s : State) : Type 0 where
  pub tables : s.tables ≡ t
  pub backup : s.backup ≡ none
  pub now : s.now ≡ n
  pub heard : All Heard s.faults

-- A rollback brings `old` back.
pub record Recoverable (old : Tables) (n : ℕ) (s : State) : Type 0 where
  pub tables : restored s.tables s.backup ≡ old
  pub now : s.now ≡ n
  pub heard : All Heard s.faults

pub Inside-Recoverable : {old : Tables} {n : ℕ} {s : State} → Inside old n s → Recoverable old n s
Inside-Recoverable h = ground arith

pub Outside-Recoverable : {old : Tables} {n : ℕ} {s : State} → Outside old n s → Recoverable old n s
Outside-Recoverable h = ground arith

module _ (old : Tables) (n : ℕ) (s : State) where
  pub acquire-Ends : Outside old n s → Ends (λ _. Outside old n) (Outside old n) (acquire s)
  unfolding acquire Ends
  acquire-Ends h = ground arith

  pub begin-Ends :
      Outside old n s
      → Ends (λ _ s'. (s'.tables ≡ old) × Inside old n s') (Recoverable old n) (begin s)
  unfolding begin Ends
  begin-Ends h = ground arith

  pub execute_affected-Ends :
      (f : State → Tables × ℕ)
      → Inside old n s
      → Ends
          (λ k s'. (k ≡ (f s).1) × (s'.tables ≡ (f s).0) × Inside old n s')
          (Inside old n)
          (execute_affected f s)
  unfolding execute_affected Ends
  execute_affected-Ends f h = ground arith

  pub select-Ends :
      {A : Type 0} (f : State → A)
      → Inside old n s
      → Ends
          (λ a s'. (a ≡ f s) × (s'.tables ≡ s.tables) × Inside old n s')
          (Inside old n)
          (select f s)
  unfolding select Ends
  select-Ends f h = ground arith

  -- Where no reply is lost, a COMMIT that fails has not happened.
  pub commit-Ends : Inside old n s → Ends (λ _. Outside s.tables n) (Inside old n) (commit s)
  unfolding commit Ends
  commit-Ends h = ground arith

  pub rollback-Outside : Recoverable old n s → Outside old n (rollback s).1
  unfolding rollback
  rollback-Outside h = ground arith
