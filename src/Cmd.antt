-- ===== src/Cmd.antt =====
-- cmd/f5-ipam-controller/main.go: the check of the arguments.
pub mod Flags
pub mod Arguments
pub mod Startup
pub mod Process
use f5_ipam_controller_base.Base.{ℕ, ◌&&◌, Option, none, some, if◌then◌else◌}
use f5_ipam_controller_base.Base.Text.{Text, text, text_eq, is_empty, lower, trim}
use f5_ipam_controller_base.Vlogger.{
  LogState, Logger, console_logger, ll_debug, ll_critical, new_log_level, register_logger,
  set_log_level,
}

pub record Args : Type 0 where
  pub log_level : Text
  pub orch : Text
  pub provider : Text
  pub iprange : Text

abbrev pub default_provider : Text
default_provider = text "f5-ip-provider"

pub data ArgError : Type 0 where
  unknown_log_level orchestration_required no_ip_range log_panic : ArgError

-- The state of the loggers stays as far as the function came.
pub data Verified : Type 0 where
  accepted : Args → LogState → Verified
  rejected : ArgError → Verified

abbrev console : Logger
console = record { kind = console_logger; sl_log_level = 7 }

-- `unicode` is strings.ToLower on the texts that are not ASCII.
check_args : (Text → Text) → Args → LogState → Verified
unfolding lower
check_args unicode args st =
    if is_empty args.orch
    then rejected orchestration_required
    else if is_empty args.iprange && text_eq (lower unicode args.provider) default_provider
    then rejected no_ip_range
    else accepted
        (record {
          log_level = args.log_level;
          orch = lower unicode args.orch;
          provider = lower unicode args.provider;
          iprange = trim (trim args.iprange b'"') b'\'';
        })
        st

set_level : (Text → Text) → Args → Option ℕ → LogState → Verified
unfolding check_args
set_level unicode args none st = rejected unknown_log_level
set_level unicode args (some ll) st = elim (set_log_level ll st) [
  | none ↦ rejected log_panic
  | some st' ↦ check_args unicode args st'
]

-- `verifyArgs`.
unfoldable pub verify_args : (Text → Text) → Args → LogState → Verified
unfolding set_level
verify_args unicode args st = elim (register_logger ll_debug ll_critical console st) [
  | none ↦ rejected log_panic
  | some st' ↦ set_level unicode args (new_log_level unicode args.log_level) st'
]
