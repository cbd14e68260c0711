-- ===== src/Vlogger/Filter.antt =====
-- Level names, and what a set level lets through.
use f5_ipam_controller_base.Base.{
  ◌-◌, sym, subst, ℕ, zero, suc, ◌<◌, ◌≡◌, refl, ap, ◌∙◌, Option, none, some, List, [], ◌∷◌, ◌++◌,
  leb, set, get_or, length, arith, if◌then◌else◌,
}
use f5_ipam_controller_base.Base.Text.{Text, text_eq, trim, lower}
use f5_ipam_controller_base.Vlogger.{
  null_default, set_logger, set_each, syslog_level, LogState, Logger, console_logger, level_string,
  new_log_level, marshal_json, unmarshal_json, register_logger, register_from, set_log_level,
  log_message, logger_log, console_log, ll_debug, ll_critical, ll_loglevel_size,
}

-- Each level is read back from its name, and from its JSON text, whatever Unicode is in lower case.
pub new_log_level-level_string :
    (unicode : Text → Text) (ll : ℕ)
    → ll < ll_loglevel_size
    → (new_log_level unicode (level_string ll) ≡ some ll)
      × (unmarshal_json unicode (marshal_json ll) ≡ some ll)
unfolding new_log_level level_string marshal_json unmarshal_json text_eq trim lower
new_log_level-level_string unicode zero h = (refl, refl)
new_log_level-level_string unicode (suc zero) h = (refl, refl)
new_log_level-level_string unicode (suc (suc zero)) h = (refl, refl)
new_log_level-level_string unicode (suc (suc (suc zero))) h = (refl, refl)
new_log_level-level_string unicode (suc (suc (suc (suc zero)))) h = (refl, refl)
new_log_level-level_string unicode (suc (suc (suc (suc (suc n))))) h = absurd (omega arith)

get_or-append : (logs : List Logger) (x d : Logger) → get_or (logs ++ x ∷ []) (length logs) d ≡ x
get_or-append [] x d = refl
get_or-append (y ∷ logs) x d = get_or-append logs x d

set-append :
    (logs : List Logger) (x z : Logger) → set (logs ++ x ∷ []) (length logs) z ≡ logs ++ z ∷ []
set-append [] x z = refl
set-append (y ∷ logs) x z = ap (◌∷◌ y) (set-append logs x z)

abbrev pub console_at : ℕ → Logger
console_at priority = record { kind = console_logger; sl_log_level = priority }

abbrev pub all_at : ℕ → List (Option ℕ)
all_at p = some p ∷ some p ∷ some p ∷ some p ∷ some p ∷ []

register_all :
    (ptr : ℕ) (vlog : List (Option ℕ))
    → length vlog ≡ 5
    → register_from 5 0 ptr vlog ≡ some (all_at ptr)
unfolding register_from
register_all ptr (a ∷ b ∷ c ∷ d ∷ e ∷ []) h = refl
register_all ptr [] h = absurd (omega arith)
register_all ptr (a ∷ []) h = absurd (omega arith)
register_all ptr (a ∷ b ∷ []) h = absurd (omega arith)
register_all ptr (a ∷ b ∷ c ∷ []) h = absurd (omega arith)
register_all ptr (a ∷ b ∷ c ∷ d ∷ []) h = absurd (omega arith)
register_all ptr (a ∷ b ∷ c ∷ d ∷ e ∷ f ∷ v) h = absurd (omega arith)

-- After the registration the logger stands at each level.
pub registered :
    (st : LogState) (log : Logger)
    → length st.vlog ≡ 5
    → register_logger ll_debug ll_critical log st
      ≡ some (record st { loggers = st.loggers ++ log ∷ []; vlog = all_at (length st.loggers) })
unfolding register_logger
registered st log h = rw (register_all (length st.loggers) st.vlog h, register_logger)

set_logger-append :
    (logs : List Logger) (old priority : ℕ)
    → set_logger (length logs) priority (logs ++ console_at old ∷ [])
      ≡ logs ++ console_at priority ∷ []
unfolding set_logger
set_logger-append logs old priority =
    rw (get_or-append logs (console_at old) null_default)
      (set-append logs (console_at old) (console_at priority))

set_each-all :
    (logs : List Logger) (old priority : ℕ)
    → set_each (all_at (length logs)) priority (logs ++ console_at old ∷ [])
      ≡ logs ++ console_at priority ∷ []
unfolding set_each
set_each-all logs old priority = simp (set_logger-append logs)

syslog_level-eq : (ll : ℕ) → ll < 5 → syslog_level ll ≡ (if leb ll 1 then 7 - ll else 6 - ll)
syslog_level-eq zero h = refl
syslog_level-eq (suc zero) h = refl
syslog_level-eq (suc (suc zero)) h = refl
syslog_level-eq (suc (suc (suc zero))) h = refl
syslog_level-eq (suc (suc (suc (suc zero)))) h = refl
syslog_level-eq (suc (suc (suc (suc (suc n))))) h = absurd (omega arith)

-- The priorities of syslog fall as the levels rise.
priority_order : (ll m : ℕ) → ll < 5 → m < 5 → leb (syslog_level m) (syslog_level ll) ≡ leb ll m
priority_order ll m h k = rw (syslog_level-eq ll h, syslog_level-eq m k) (ground arith)

at_all : (p m : ℕ) → m < 5 → get_or (all_at p) m none ≡ some p
at_all p zero h = refl
at_all p (suc zero) h = refl
at_all p (suc (suc zero)) h = refl
at_all p (suc (suc (suc zero))) h = refl
at_all p (suc (suc (suc (suc zero)))) h = refl
at_all p (suc (suc (suc (suc (suc n))))) h = absurd (omega arith)

abbrev pub at_level : LogState → ℕ → LogState
at_level st ll = record st {
  loggers = st.loggers ++ console_at (syslog_level ll) ∷ [];
  vlog = all_at (length st.loggers);
  log_level = ll;
}

pub level_set :
    (st : LogState) (ll : ℕ)
    → ll < 5
    → set_log_level ll
        (record st { loggers = st.loggers ++ console_at 7 ∷ []; vlog = all_at (length st.loggers) })
      ≡ some (at_level st ll)
unfolding set_log_level
level_set st ll h = ground (arith, set_each-all st.loggers 7 (syslog_level ll))

logger_log-console :
    (priority m : ℕ) (msg : Text) (st : LogState)
    → logger_log (console_at priority) m msg st ≡ (
        if leb (syslog_level m) priority
        then record st { printed = st.printed ++ (m, msg) ∷ [] }
        else st)
unfolding logger_log console_log
logger_log-console priority m msg st = refl

pub logged :
    (st : LogState) (ll m : ℕ) (msg : Text)
    → ll < 5
    → m < 5
    → log_message m msg (at_level st ll)
      ≡ some (
          if leb ll m
          then record (at_level st ll) { printed = st.printed ++ (m, msg) ∷ [] }
          else at_level st ll)
unfolding log_message
logged st ll m msg h k =
    rw (at_all (length st.loggers) m k, log_message)
      (rw (get_or-append st.loggers (console_at (syslog_level ll)) null_default) (
        rw (logger_log-console (syslog_level ll) m msg (at_level st ll), priority_order ll m h k)
          refl))

in_some : LogState → Option LogState → LogState
in_some d none = d
in_some d (some s) = s

some_inj : {a b : LogState} → some a ≡ some b → a ≡ b
unfolding in_some
some_inj {a} e = ap (in_some a) e

-- With a console logger at all levels and the level set to `ll`, a message is printed exactly if its
-- level is at least `ll`, and nothing else of the state changes.
pub log_message-filter :
    (st st1 st2 : LogState) (ll m : ℕ) (msg : Text)
    → length st.vlog ≡ 5
    → ll < 5
    → m < 5
    → register_logger ll_debug ll_critical (console_at 7) st ≡ some st1
    → set_log_level ll st1 ≡ some st2
    → log_message m msg st2
      ≡ some (if leb ll m then record st2 { printed = st2.printed ++ (m, msg) ∷ [] } else st2)
log_message-filter st st1 st2 ll m msg h hl hm e1 e2 =
    let here = registered st (console_at 7) h in
    let st1_eq : _ ≡ st1 = some_inj (sym here ∙ e1) in
    let st2_eq : _ ≡ st2 =
      some_inj (sym (level_set st ll hl) ∙ ap (set_log_level ll) st1_eq ∙ e2) in
    subst
      (λ s.
        log_message m msg s
        ≡ some (if leb ll m then record s { printed = s.printed ++ (m, msg) ∷ [] } else s))
      st2_eq (logged st ll m msg hl hm)
