-- ===== src/Examples/Starting.antt =====
-- A start with a range and without a client.
use f5_ipam_controller_base.Base.{
  ◌⊎◌, true, ◌<◌, ℕ, ◌≡◌, ◌≢◌, refl, Option, some, none, List, [], ◌∷◌, replicate,
}
use f5_ipam_controller_base.Base.Text.{Text, text, text_eq}
use f5_ipam_controller_base.Store.Tables.{Tables}
use f5_ipam_controller_base.Store.Dbstore.{display_ip_records}
use f5_ipam_controller_base.Store.Memory.{
  memory, memory-IsSqlite, memory-NeverFails, memory-Prepares,
}
use f5_ipam_controller_base.Provider.Ranges.{Provider, returns, exits}
use f5_ipam_controller_base.Vlogger.{new_log_level, LogState, console_logger, ll_debug, ll_info}
use f5_ipam_controller_base.Vlogger.Filter.{console_at}
use f5_ipam_controller_base.Cmd.{Args, accepted, rejected, unknown_log_level, verify_args}
use f5_ipam_controller_base.Cmd.Arguments.{Checked, verify_args-outcome}
use f5_ipam_controller_base.Cmd.Startup.{
  Interface, IsManager, wraps, starts, fails, start_up, start_up-starts,
}

abbrev same : Text → Text
same s = s

abbrev given : Args
given = record {
  log_level = text "INFO";
  orch = text "Kubernetes";
  provider = text "f5-ip-provider";
  iprange = text "10.0.0.1/24-10.0.0.9/24";
}

abbrev verified : Args
verified = record given { orch = text "kubernetes" }

abbrev at_start : LogState
at_start = record { loggers = []; vlog = replicate 5 none; log_level = ll_debug; printed = [] }

abbrev at_info : LogState
at_info = record {
  loggers = console_at 6 ∷ [];
  vlog = some 0 ∷ some 0 ∷ some 0 ∷ some 0 ∷ some 0 ∷ [];
  log_level = ll_info;
  printed = [];
}

given-accepted : verify_args same given at_start ≡ accepted verified at_info
unfolding verify_args text_eq f5_ipam_controller_base.Vlogger.register_logger
    f5_ipam_controller_base.Vlogger.register_from f5_ipam_controller_base.Vlogger.new_log_level
    f5_ipam_controller_base.Vlogger.set_log_level f5_ipam_controller_base.Base.Text.trim
    f5_ipam_controller_base.Vlogger.set_each f5_ipam_controller_base.Vlogger.set_logger
given-accepted = refl

memory_shows : (t : Tables) → display_ip_records memory t ≢ none
unfolding display_ip_records
memory_shows t h = cc

abbrev no_client : Option Text
no_client = none

abbrev range : Text
range = text "10.0.0.1/24-10.0.0.9/24"

start_up-starts_example :
    ((mgr : Interface Provider) × (start_up memory same true given at_start (returns no_client)
        ≡ starts (wraps no_client) mgr)
      × IsManager verified.provider verified.iprange mgr)
    × (start_up memory {O = Text} same true given at_start exits ≡ fails)
start_up-starts_example =
    start_up-starts memory memory-IsSqlite memory-NeverFails memory-Prepares refl refl memory_shows
      same given verified at_start at_info no_client given-accepted

verify_args-outcome_example :
    ((new_log_level same given.log_level ≡ none)
      × (verify_args same given at_start ≡ rejected unknown_log_level))
    ⊎ ((ll : ℕ) × (new_log_level same given.log_level ≡ some ll)
        × (ll < 5)
        × Checked same given (verify_args same given at_start) ll)
verify_args-outcome_example = verify_args-outcome same given at_start refl
