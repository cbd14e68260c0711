-- ===== src/Cmd/Startup.antt =====
-- `main` of cmd/f5-ipam-controller/main.go up to the start of the controller. An interface value that
-- wraps a nil pointer is not the nil interface.
use f5_ipam_controller_base.Base.{
  Bool-cases, [], ◌∷◌, ap, false, ◌⊎◌, ◌≡◌, refl, ◌≢◌, inl, inr, Bool, true, Option, none, some,
  if◌then◌else◌,
}
use f5_ipam_controller_base.Base.Text.{Text, text_eq}
use f5_ipam_controller_base.Store.Tables.{Tables}
use f5_ipam_controller_base.Store.Engine.{Sqlite, IsSqlite, NeverFails, Prepares}
use f5_ipam_controller_base.Provider.Ranges.{Provider, Outcome, returns, panics, exits, loops}
use f5_ipam_controller_base.Store.Dbstore.{display_ip_records}
use f5_ipam_controller_base.Provider.Filled.{pool_of, new_provider-fills}
use f5_ipam_controller_base.Controller.Addresses.{addresses}
use f5_ipam_controller_base.Provider.Ranges.{new_provider, parse_ip_range}
use f5_ipam_controller_base.Manager.{new_ipam_manager}
use f5_ipam_controller_base.Vlogger.{LogState}
use f5_ipam_controller_base.Cmd.{
  Args, ArgError, Verified, accepted, rejected, verify_args, default_provider,
}

pub data Interface (A : Type 0) : Type 0 where
  nil_interface : Interface A
  wraps : Option A → Interface A

-- How far `main` comes: it exits with status 1, a constructor panics, exits or does not end, or the
-- controller starts with its orchestrator and its manager.
pub data Startup (O : Type 0) : Type 0 where
  bad_flags no_orchestrator fails : Startup O
  bad_arguments : ArgError → Startup O
  starts : Interface O → Interface Provider → Startup O

wrap_outcome : Outcome (Option Provider) → Outcome (Interface Provider)
wrap_outcome (returns m) = returns (wraps m)
wrap_outcome panics = panics
wrap_outcome exits = exits
wrap_outcome loops = loops

module _ {O : Type 0} where
  -- `NewOrchestrator`, over what NewIPAMK8SClient returns; the orchestration that was asked for is
  -- not read.
  abbrev pub new_orchestrator : Option O → Interface O
  new_orchestrator client = wraps client

  with_manager : Interface O → Outcome (Interface Provider) → Startup O
  with_manager orcr (returns mgr) = starts orcr mgr
  with_manager orcr _ = fails

module _ (e : Sqlite) where
  -- `NewManager`, as the interface value that it returns.
  unfoldable pub manager_interface : Text → Text → Outcome (Interface Provider)
  unfolding wrap_outcome
  manager_interface provider range =
      if text_eq provider default_provider
      then wrap_outcome (new_ipam_manager e range)
      else returns nil_interface

  module _ {O : Type 0} where
    with_orchestrator : Interface O → Args → Startup O
    unfolding with_manager
    with_orchestrator nil_interface args = no_orchestrator
    with_orchestrator (wraps client) args =
        with_manager (wraps client) (manager_interface args.provider args.iprange)

    with_arguments : Verified → Outcome (Option O) → Startup O
    unfolding with_orchestrator
    with_arguments (rejected err) client = bad_arguments err
    with_arguments (accepted args st) (returns client) =
        with_orchestrator (new_orchestrator client) args
    with_arguments (accepted args st) _ = fails

    -- `main`, by whether the flags parse, the arguments, the loggers and how NewIPAMK8SClient ends,
    -- which exits the process without a configuration of the cluster.
    unfoldable pub start_up :
        (Text → Text) → Bool → Args → LogState → Outcome (Option O) → Startup O
    unfolding with_arguments
    start_up unicode parsed args st client =
        if parsed then with_arguments (verify_args unicode args st) client else bad_flags

-- The manager that the provider's name and the ranges call for: none for another provider, a nil one
-- where no range is left, and else one with the pool of the ranges.
abbrev pub IsManager : Text → Text → Interface Provider → Type 0
IsManager provider range mgr =
    ((text_eq provider default_provider ≡ false) × (mgr ≡ nil_interface))
    ⊎ ((text_eq provider default_provider ≡ true) × (range ≡ []) × (mgr ≡ wraps none))
    ⊎ ((text_eq provider default_provider ≡ true)
        × (prov : Provider) × (mgr ≡ wraps (some prov))
        × (addresses prov.store.ranges ≡ pool_of range))

module _ (e : Sqlite) (lawful : IsSqlite e) (sure : NeverFails e) (ready : Prepares e)
    (opened : e.open_ok ≡ true) (reached : e.ping_ok ≡ true)
    (shows : (t : Tables) → display_ip_records e t ≢ none) where
  managed :
      (provider range : Text)
      → (mgr : Interface Provider) × (manager_interface e provider range ≡ returns mgr)
        × IsManager provider range mgr
  unfolding manager_interface wrap_outcome new_ipam_manager new_provider parse_ip_range
  managed provider [] = elim (Bool-cases (text_eq provider default_provider)) [
    | inr other ↦ (nil_interface, rw other refl, inl (other, refl))
    | inl default ↦ (wraps none, rw default refl, inr (inl (default, refl, refl)))
  ]
  managed provider (c ∷ range) = elim (Bool-cases (text_eq provider default_provider)) [
    | inr other ↦ (nil_interface, rw other refl, inl (other, refl))
    | inl default ↦
        let (prov, done, pool) =
          new_provider-fills e lawful sure ready (c ∷ range) (λ h. cc) opened reached shows in
        (
          wraps (some prov),
          rw default (ap wrap_outcome done),
          inr (inr (default, prov, refl, pool)),
        )
  ]

  -- Over an engine that prepares every statement and of which none fails, that opens and can display
  -- its rows, and with arguments that verifyArgs accepts: where NewIPAMK8SClient returns, main comes
  -- to the start of the controller with the manager that the arguments call for, also where the client
  -- is nil, which the check of the orchestrator does not see; and where it exits, main starts nothing.
  pub start_up-starts :
      {O : Type 0} (unicode : Text → Text) (args args' : Args) (st st' : LogState)
      (client : Option O)
      → verify_args unicode args st ≡ accepted args' st'
      → ((mgr : Interface Provider) × (start_up e unicode true args st (returns client)
            ≡ starts (wraps client) mgr)
          × IsManager args'.provider args'.iprange mgr)
        × (start_up e {O = O} unicode true args st exits ≡ fails)
  unfolding start_up with_arguments with_orchestrator with_manager
  start_up-starts unicode args args' st st' client good =
      let (mgr, done, is) = managed args'.provider args'.iprange in
      ((mgr, rw good (ap (with_manager (wraps client)) done), is), rw good refl)
