-- ===== src/Vlogger.antt =====
-- pkg/vlogger/log.go, log_null.go and console/log_console.go. Loggers are shared objects: `vlog`
-- holds pointers into a heap of loggers. The message of a method that formats is the text that
-- fmt.Sprintf makes.
pub mod Filter
use f5_ipam_controller_base.Base.{
  ℕ, zero, suc, ◌+◌, ◌-◌, Bool, true, false, Option, none, some, List, [], ◌∷◌, ◌++◌, ltb, leb, set,
  get_or, ◌==◌, if◌then◌else◌, replicate, length,
}
use f5_ipam_controller_base.Base.Text.{Text, text, text_eq, is_empty, lower, trim}

abbrev pub ll_debug : ℕ
ll_debug = 0

abbrev pub ll_info : ℕ
ll_info = 1

abbrev pub ll_warning : ℕ
ll_warning = 2

abbrev pub ll_error : ℕ
ll_error = 3

abbrev pub ll_critical : ℕ
ll_critical = 4

abbrev pub ll_loglevel_size : ℕ
ll_loglevel_size = 5

-- LogLevel.String
unfoldable pub level_string : ℕ → Text
level_string ll =
    if ll == ll_debug
    then text "debug"
    else if ll == ll_info
    then text "info"
    else if ll == ll_warning
    then text "warning"
    else if ll == ll_error
    then text "error"
    else if ll == ll_critical
    then text "critical"
    else text "invalid"

-- NewLogLevel; `none` is nil. `unicode` is strings.ToLower on the texts that are not ASCII.
unfoldable pub new_log_level : (Text → Text) → Text → Option ℕ
unfolding lower
new_log_level unicode name =
    let s = lower unicode name in
    if is_empty s
    then none
    else if text_eq s (text "debug")
    then some ll_debug
    else if text_eq s (text "info")
    then some ll_info
    else if text_eq s (text "warning")
    then some ll_warning
    else if text_eq s (text "error")
    then some ll_error
    else if text_eq s (text "critical")
    then some ll_critical
    else none

unfoldable pub marshal_json : ℕ → Text
marshal_json ll = b'"' ∷ level_string ll ++ b'"' ∷ []

-- The new value, or `none` for an error.
unfoldable pub unmarshal_json : (Text → Text) → Text → Option ℕ
unmarshal_json unicode bytes = new_log_level unicode (trim bytes b'"')

-- A logger: one that drops all, or one that prints what its priority lets through.
pub data Kind : Type 0 where
  null_logger console_logger : Kind

pub record Logger : Type 0 where
  pub kind : Kind
  pub sl_log_level : ℕ

pub record LogState : Type 0 where
  pub loggers : List Logger
  pub vlog : List (Option ℕ)
  pub log_level : ℕ
  pub printed : List (ℕ × Text)

-- Priorities of syslog, lowest first, as `logLevelToSyslogLevel` has them.
abbrev pub syslog_levels : List ℕ
syslog_levels = 7 ∷ 6 ∷ 4 ∷ 3 ∷ 2 ∷ []

abbrev pub syslog_level : ℕ → ℕ
syslog_level ll = get_or syslog_levels ll 0

abbrev pub new_logger : Kind → Logger
new_logger k = record { kind = k; sl_log_level = 7 }

-- The rounds of RegisterLogger from a level on; `none` is an index out of range.
unfoldable pub register_from : ℕ → ℕ → ℕ → List (Option ℕ) → Option (List (Option ℕ))
register_from zero level ptr vlog = some vlog
register_from (suc rounds) level ptr vlog =
    let rest = register_from rounds (level + 1) ptr (set vlog level (some ptr)) in
    if ltb level (length vlog) then rest else none

unfoldable pub register_logger : ℕ → ℕ → Logger → LogState → Option LogState
register_logger min_level max_level log st =
    elim (register_from (max_level + 1 - min_level) min_level (length st.loggers) st.vlog) [
      | none ↦ none
      | some vlog ↦ some (record st { loggers = st.loggers ++ log ∷ []; vlog = vlog })
    ]

-- The methods of the null logger: each drops its message.
abbrev null_log : ℕ → Text → LogState → LogState
null_log ll msg st = st

-- The method of a level, as Debug, Info, Warning, Error or Critical, of the console logger.
unfoldable pub console_log : Logger → ℕ → Text → LogState → LogState
console_log log ll msg st =
    if leb (syslog_level ll) log.sl_log_level
    then record st { printed = st.printed ++ (ll, msg) ∷ [] }
    else st

-- The method of a level of a logger.
unfoldable pub logger_log : Logger → ℕ → Text → LogState → LogState
unfolding console_log
logger_log log ll msg st = elim log.kind [
  | null_logger ↦ null_log ll msg st
  | console_logger ↦ console_log log ll msg st
]

abbrev pub null_default : Logger
null_default = new_logger null_logger

-- The package's function of a level; `none` is the panic of a nil logger.
unfoldable pub log_message : ℕ → Text → LogState → Option LogState
log_message ll msg st = elim (get_or st.vlog ll none) [
  | none ↦ none
  | some ptr ↦ some (logger_log (get_or st.loggers ptr null_default) ll msg st)
]

unfoldable pub set_logger : ℕ → ℕ → List Logger → List Logger
set_logger ptr priority logs =
    set logs ptr (record (get_or logs ptr null_default) { sl_log_level = priority })

unfoldable pub set_each : List (Option ℕ) → ℕ → List Logger → List Logger
set_each [] priority logs = logs
set_each (none ∷ ptrs) priority logs = set_each ptrs priority logs
set_each (some ptr ∷ ptrs) priority logs = set_each ptrs priority (set_logger ptr priority logs)

-- SetLogLevel; `none` is an index out of range.
unfoldable pub set_log_level : ℕ → LogState → Option LogState
set_log_level level st =
    if ltb level ll_loglevel_size
    then some (record st {
      log_level = level;
      loggers = set_each st.vlog (syslog_level level) st.loggers;
    })
    else none

-- The state of the package after its `init`: the null logger at each level.
unfoldable pub init_state : Option LogState
unfolding register_logger register_from
init_state =
    register_logger ll_debug ll_critical (new_logger null_logger)
      (record { loggers = []; vlog = replicate 5 none; log_level = ll_debug; printed = [] })

-- GetLogLevel
abbrev pub get_log_level : LogState → ℕ
get_log_level st = st.log_level

-- Close: both loggers do nothing there.
abbrev close_logger : Logger → Logger
close_logger log = log

unfoldable pub close_each : List (Option ℕ) → List Logger → List Logger
close_each [] logs = logs
close_each (none ∷ ptrs) logs = close_each ptrs logs
close_each (some ptr ∷ ptrs) logs =
    close_each ptrs (set logs ptr (close_logger (get_or logs ptr null_default)))

-- Close of the package.
unfoldable pub close : LogState → LogState
unfolding close_each
close st = record st { loggers = close_each st.vlog st.loggers }

-- The end of the process, by os.Exit or by a panic with a text, or by the panic of a nil logger.
pub data Ended : Type 0 where
  exited : ℕ → LogState → Ended
  panicked : Text → LogState → Ended
  nil_logger : Ended

-- Fatal, and Fatalf of the formatted text.
unfoldable pub fatal : Text → LogState → Ended
unfolding log_message close
fatal msg st = elim (log_message ll_critical msg st) [
  | none ↦ nil_logger
  | some st' ↦ exited 1 (close st')
]

-- Panic, and Panicf of the formatted text.
unfoldable pub panic : Text → LogState → Ended
unfolding log_message
panic msg st = elim (log_message ll_critical msg st) [
  | none ↦ nil_logger
  | some st' ↦ panicked msg st'
]
