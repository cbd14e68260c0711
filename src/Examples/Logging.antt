-- ===== src/Examples/Logging.antt =====
-- The informers of a client and the filter of the loggers at concrete inputs.
use f5_ipam_controller_base.Base.{◌≡◌, refl, inr, [], ◌∷◌, some, none, arith, replicate}
use f5_ipam_controller_base.Base.Text.{Text, text}
use f5_ipam_controller_base.Base.Maps.{lookup}
use f5_ipam_controller_base.Machinery.Informers.{
  IpamClient, IsConsistent, setup_informers, setup_informers-IsConsistent,
}
use f5_ipam_controller_base.Vlogger.{
  LogState, level_string, new_log_level, marshal_json, unmarshal_json, register_logger,
  register_from, set_log_level, set_each, set_logger, log_message, ll_debug, ll_warning, ll_error,
}
use f5_ipam_controller_base.Vlogger.Filter.{
  console_at, new_log_level-level_string, log_message-filter,
}

abbrev no_informers : IpamClient Text
no_informers = record { ipam_informers = []; namespaces = text "default" ∷ [] ∷ [] }

setup_informers-IsConsistent_example :
    IsConsistent (setup_informers (text "default" ∷ [] ∷ []) (text "handlers") no_informers).0
unfolding lookup
setup_informers-IsConsistent_example =
    setup_informers-IsConsistent (text "default" ∷ [] ∷ []) (text "handlers") no_informers
      (inr refl)

new_log_level-level_string_example :
    (new_log_level (λ s. s) (level_string 2) ≡ some 2)
    × (unmarshal_json (λ s. s) (marshal_json 2) ≡ some 2)
new_log_level-level_string_example = new_log_level-level_string (λ s. s) 2 (omega arith)

abbrev at_start : LogState
at_start = record { loggers = []; vlog = replicate 5 none; log_level = ll_debug; printed = [] }

abbrev with_console : LogState
with_console = record {
  loggers = console_at 7 ∷ [];
  vlog = some 0 ∷ some 0 ∷ some 0 ∷ some 0 ∷ some 0 ∷ [];
  log_level = ll_debug;
  printed = [];
}

abbrev at_warning : LogState
at_warning = record with_console { loggers = console_at 4 ∷ []; log_level = ll_warning }

log_message-filter_example :
    log_message ll_error (text "no address") at_warning
    ≡ some (record at_warning { printed = (ll_error, text "no address") ∷ [] })
unfolding register_logger register_from set_log_level set_each set_logger
log_message-filter_example =
    log_message-filter at_start with_console at_warning ll_warning ll_error (text "no address") refl
      (omega arith) (omega arith) refl refl
