-- ===== src/Logger/Calls.antt =====
-- backend/common/logger.hpp: what holds after any calls of the logger.
use paid_server.Base.{
  ℕ, ◌≡◌, ◌↔◌, refl, ◌∙◌, Text, Bool, true, false, not, ◌&&◌, List, [], ◌∷◌, is_some, arith, All,
  Bool-cases, inl, inr,
}
use paid_server.Database.Monad.{Result, ok}
use paid_server.Logger.{
  Level, is_debug, Logger, start, init, shutdown, format_message, sanitize, write,
}

-- What can be done with the logger.
pub data Call : Type 0 where
  inits : Bool → Text → ℕ → ℕ → Bool → Call
  shuts : Call
  writes : Level → Text → Result Text → Call

module _ (regex_replace : Text → Text → Text → Text) where
  abbrev pub after_call : Call → Logger → Logger
  after_call (inits debug log_file size files console_enabled) l =
      (init debug log_file size files console_enabled l).1
  after_call shuts l = shutdown l
  after_call (writes level fmt_text formatted) l =
      (write regex_replace level fmt_text formatted l).1

  abbrev pub after_calls : List Call → Logger → Logger
  after_calls [] l = l
  after_calls (c ∷ cs) l = after_calls cs (after_call c l)

  -- What was logged was sanitized.
  abbrev pub IsSanitized : Level × Text → Type 0
  IsSanitized (level, message) =
      (fmt_text : Text) × (formatted : Result Text) × (message
        ≡ sanitize regex_replace (format_message fmt_text formatted))

  -- The logger is there exactly while it is initialized, and each message was sanitized.
  pub record IsLogger (l : Logger) : Type 0 where
    pub there : is_some l.logger ≡ l.initialized
    pub sanitized : All IsSanitized l.logged

  write-IsLogger :
      (level : Level) (fmt_text : Text) (formatted : Result Text) (l : Logger)
      → IsLogger l
      → IsLogger (write regex_replace level fmt_text formatted l).1
  unfolding write
  write-IsLogger level fmt_text formatted l h = elim (Bool-cases (is_debug level && not l.debug)) [
    | inl e ↦ rw e h
    | inr e ↦ elim (Bool-cases (is_some l.logger)) [
      | inr f ↦ rw (e, f) h
      | inl f ↦
          rw (e, f)
            (record { there = h.there; sanitized = ((fmt_text, formatted, refl), h.sanitized) })
    ]
  ]

  init-IsLogger :
      (debug : Bool) (log_file : Text) (size files : ℕ) (console_enabled : Bool) (l : Logger)
      → IsLogger l
      → IsLogger (init debug log_file size files console_enabled l).1
  unfolding init
  init-IsLogger debug log_file size files console_enabled l h = elim (Bool-cases l.initialized) [
    | inl e ↦ rw e (record { there = h.there ∙ e; sanitized = h.sanitized })
    | inr e ↦ rw e (record { there = refl; sanitized = h.sanitized })
  ]

  after_call-IsLogger : (c : Call) (l : Logger) → IsLogger l → IsLogger (after_call c l)
  unfolding shutdown
  after_call-IsLogger (inits debug log_file size files console_enabled) l h =
      init-IsLogger debug log_file size files console_enabled l h
  after_call-IsLogger shuts l h = record { there = refl; sanitized = h.sanitized }
  after_call-IsLogger (writes level fmt_text formatted) l h =
      write-IsLogger level fmt_text formatted l h

  after_calls-IsLogger : (cs : List Call) (l : Logger) → IsLogger l → IsLogger (after_calls cs l)
  after_calls-IsLogger [] l h = h
  after_calls-IsLogger (c ∷ cs) l h =
      after_calls-IsLogger cs (after_call c l) (after_call-IsLogger c l h)

  start-IsLogger : IsLogger start
  unfolding start
  start-IsLogger = record { there = refl; sanitized = tt }

  write_throws :
      (level : Level) (fmt_text : Text) (formatted : Result Text) (l : Logger)
      → is_debug level ≡ false
      → ((write regex_replace level fmt_text formatted l).0 ≡ ok tt) ↔ (is_some l.logger ≡ true)
  unfolding write
  write_throws level fmt_text formatted l e = elim (Bool-cases (is_some l.logger)) [
    | inl f ↦ rw (e, f) (ground arith)
    | inr f ↦ rw (e, f) (ground arith)
  ]

  -- After any calls, each message that was handed to spdlog was sanitized, and a message that is not
  -- one for debugging is written without an exception exactly while the logger is initialized.
  pub calls-IsLogger :
      (cs : List Call)
      → (let l = after_calls cs start in
          All IsSanitized l.logged
          × ((level : Level) (fmt_text : Text) (formatted : Result Text)
              → is_debug level ≡ false
              → ((write regex_replace level fmt_text formatted l).0 ≡ ok tt)
                ↔ (l.initialized ≡ true)))
  calls-IsLogger cs =
      let h = after_calls-IsLogger cs start start-IsLogger in
      (
        h.sanitized,
        λ level fmt_text formatted e.
            rw⁻¹ h.there (write_throws level fmt_text formatted (after_calls cs start) e),
      )
