-- ===== src/Database/Finalize/Checks.antt =====
-- What the checks on the locked rows decide, as a function of the tables.
use paid_server.Base.{ℕ, ◌≡◌, ◌∙◌, refl}
use paid_server.Database.Rows.{PaymentFinalizeInput, Tables}
use paid_server.Database.Monad.{Result, State, pure}
use paid_server.Database.Ends.{Ends, Inside, ended, sequence, select-Ends}
use paid_server.Database.Finalize.{
  Verdict, reject, reject_quietly, duplicate, proceed, on_proceed, check, check_session,
  check_order, check_account, check_attempt, check_user, locked_checks,
}

abbrev pub first_failing : Verdict → Verdict → Verdict
first_failing proceed next = next
first_failing (reject r) next = reject r
first_failing reject_quietly next = reject_quietly
first_failing duplicate next = duplicate

abbrev pub decide : PaymentFinalizeInput → Tables → Verdict
decide i t = first_failing (check_session i t) (
    first_failing (check_order i t) (
      first_failing (check_account i t)
        (first_failing (check_attempt i t) (first_failing (check_user i t) proceed))))

module _ (old : Tables) (n : ℕ) where
  abbrev Unchanged : State → Type 0
  Unchanged s = (s.tables ≡ old) × Inside old n s

  -- Inside a transaction that has changed nothing yet, m answers v and changes nothing.
  abbrev Decides : (State → Result Verdict × State) → Verdict → Type 0
  Decides m v =
      (s : State) → Unchanged s → Ends (λ w s'. (w ≡ v) × Unchanged s') (Inside old n) (m s)

  on_proceed-Ends :
      (next : State → Result Verdict × State) (f v w : Verdict)
      → Decides next f
      → w ≡ v
      → (s : State) → Unchanged s
      → Ends (λ x s'. (x ≡ first_failing v f) × Unchanged s') (Inside old n) (on_proceed next w s)
  on_proceed-Ends next f v proceed h e s u = rw (← e) (h s u)
  on_proceed-Ends next f v (reject r) h e s u = rw (← e) (ended _ _ (refl, u))
  on_proceed-Ends next f v reject_quietly h e s u = rw (← e) (ended _ _ (refl, u))
  on_proceed-Ends next f v duplicate h e s u = rw (← e) (ended _ _ (refl, u))

  check-Decides :
      (v : Tables → Verdict) (next : State → Result Verdict × State) (f : Verdict)
      → Decides next f
      → Decides (check v next) (first_failing (v old) f)
  check-Decides v next f h s u =
      sequence _ _ _ _ _ (select-Ends old n s (λ r. v r.tables) u.1)
        (λ w s' (e, t, k). on_proceed-Ends next f (v old) w h (cc (e, u.0)) s' (t ∙ u.0, k))

  pub locked_checks-Decides : (i : PaymentFinalizeInput) → Decides (locked_checks i) (decide i old)
  unfolding locked_checks
  locked_checks-Decides i = check-Decides (check_session i) _ _ (
      check-Decides (check_order i) _ _ (
        check-Decides (check_account i) _ _ (
          check-Decides (check_attempt i) _ _
            (check-Decides (check_user i) (pure proceed) proceed (λ s u. ended _ _ (refl, u))))))
