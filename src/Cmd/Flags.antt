-- ===== src/Cmd/Flags.antt =====
-- `init` of cmd/f5-ipam-controller/main.go: the flags with their defaults, and the usage. The
-- terminal, and how package pflag wraps the usage of a set of flags, are parameters.
use f5_ipam_controller_base.Base.{ℕ, Bool, Option, none, some, List, [], ◌∷◌, ◌++◌, if◌then◌else◌}
use f5_ipam_controller_base.Base.Text.{Text, text, text_eq}
use f5_ipam_controller_base.Cmd.{Args, default_provider}

-- A flag of strings.
pub record Flag : Type 0 where
  pub name : Text
  pub value : Text
  pub usage : Text

-- Standard output: whether it is a terminal, and its width, of which `none` is an error.
pub record Terminal : Type 0 where
  pub is_terminal : Bool
  pub width : Option ℕ

abbrev width_or_zero : Option ℕ → ℕ
width_or_zero none = 0
width_or_zero (some width) = width

-- The width that the usage is wrapped to.
abbrev pub usage_width : Terminal → ℕ
usage_width term = if term.is_terminal then width_or_zero term.width else 0

abbrev pub global_flags : List Flag
global_flags =
    record { name = text "log-level"; value = text "INFO"; usage = text "Optional, logging level." }
    ∷ record {
      name = text "orchestration";
      value = [];
      usage = text "Required, orchestration that the controller is running in.";
    }
    ∷ record {
      name = text "ip-provider";
      value = default_provider;
      usage = text "Required, the IPAM system that the controller will interface with.";
    }
    ∷ []

abbrev pub provider_flags : List Flag
provider_flags =
    record {
      name = text "ip-range";
      value = [];
      usage = text "Optional, the Default Provider needs iprange to build pools of IP Addresses";
    }
    ∷ []

-- All flags, as `init` adds the two sets.
abbrev pub flags : List Flag
flags = global_flags ++ provider_flags

abbrev default_value : Text → List Flag → Text
default_value name [] = []
default_value name (f ∷ fs) =
    let rest = default_value name fs in if text_eq f.name name then f.value else rest

-- The values of the flags before any is parsed.
unfoldable pub default_args : Args
default_args = record {
  log_level = default_value (text "log-level") global_flags;
  orch = default_value (text "orchestration") global_flags;
  provider = default_value (text "ip-provider") global_flags;
  iprange = default_value (text "ip-range") provider_flags;
}

-- What the usage of all flags prints to standard error, for the name of the program.
unfoldable pub print_usage : (List Flag → ℕ → Text) → Terminal → Text → Text
print_usage wrapped term program =
    text "Usage of "
    ++ program
    ++ text "\n  Global:\n"
    ++ wrapped global_flags (usage_width term)
    ++ text "\n  Provider:\n"
    ++ wrapped provider_flags (usage_width term)
    ++ text "\n"
