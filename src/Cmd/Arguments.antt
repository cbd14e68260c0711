-- ===== src/Cmd/Arguments.antt =====
-- How `verifyArgs` of cmd/f5-ipam-controller/main.go ends, with each of its errors.
use f5_ipam_controller_base.Base.{
  ◌⊎◌, ℕ, ◌<◌, ◌≡◌, refl, ◌∙◌, sym, subst, inl, inr, Bool, true, false, ◌&&◌, Option, none, some,
  ◌∷◌, [], ◌++◌, Bool-cases, arith, leb, length, if◌then◌else◌,
}
use f5_ipam_controller_base.Base.Text.{Text, text_eq, is_empty, lower, trim}
use f5_ipam_controller_base.Vlogger.{LogState, new_log_level, log_message}
use f5_ipam_controller_base.Vlogger.Filter.{
  console_at, registered, all_at, at_level, level_set, logged,
}
use f5_ipam_controller_base.Cmd.{
  Args, Verified, accepted, rejected, unknown_log_level, orchestration_required, no_ip_range,
  default_provider, check_args, set_level, verify_args,
}
use f5_ipam_controller_base.Cmd.Flags.{default_args}

-- A level, or none.
abbrev InRange : Option ℕ → Type 0
InRange o = (o ≡ none) ⊎ ((ll : ℕ) × (o ≡ some ll) × (ll < 5))

test-InRange :
    (b : Bool) (ll : ℕ) (rest : Option ℕ)
    → ll < 5
    → InRange rest
    → InRange (if b then some ll else rest)
test-InRange true ll rest h r = inr (ll, refl, h)
test-InRange false ll rest h r = r

empty-InRange : (b : Bool) (rest : Option ℕ) → InRange rest → InRange (if b then none else rest)
empty-InRange true rest r = inl refl
empty-InRange false rest r = r

new_log_level-InRange : (unicode : Text → Text) (name : Text) → InRange (new_log_level unicode name)
unfolding new_log_level
new_log_level-InRange unicode name = empty-InRange _ _ (
    test-InRange _ 0 _ (omega arith) (
      test-InRange _ 1 _ (omega arith) (
        test-InRange _ 2 _ (omega arith)
          (test-InRange _ 3 _ (omega arith) (test-InRange _ 4 _ (omega arith) (inl refl))))))

-- The default provider is asked for without a range.
abbrev pub lacks_range : (Text → Text) → Args → Bool
lacks_range unicode args =
    is_empty args.iprange && text_eq (lower unicode args.provider) default_provider

-- The arguments as they are used: in lower case, and the range without its quotes.
abbrev pub normalized : (Text → Text) → Args → Args
normalized unicode args = record {
  log_level = args.log_level;
  orch = lower unicode args.orch;
  provider = lower unicode args.provider;
  iprange = trim (trim args.iprange b'"') b'\'';
}

-- From this state on, exactly the messages of the level and above are printed.
abbrev pub PrintsFrom : ℕ → LogState → Type 0
PrintsFrom ll st =
    (m : ℕ) (msg : Text)
    → m < 5
    → log_message m msg st
      ≡ some (if leb ll m then record st { printed = st.printed ++ (m, msg) ∷ [] } else st)

-- How the check of the arguments ends after the level was set.
abbrev pub Checked : (Text → Text) → Args → Verified → ℕ → Type 0
Checked unicode args verified ll =
    ((is_empty args.orch ≡ true) × (verified ≡ rejected orchestration_required))
    ⊎ ((is_empty args.orch ≡ false)
        × (lacks_range unicode args ≡ true)
        × (verified ≡ rejected no_ip_range))
    ⊎ ((is_empty args.orch ≡ false)
        × (lacks_range unicode args ≡ false)
        × (st : LogState) × (verified ≡ accepted (normalized unicode args) st)
        × PrintsFrom ll st)

check_args-Checked :
    (unicode : Text → Text) (args : Args) (st : LogState) (ll : ℕ)
    → PrintsFrom ll st
    → Checked unicode args (check_args unicode args st) ll
unfolding check_args
check_args-Checked unicode args st ll prints = elim (Bool-cases (is_empty args.orch)) [
  | inl missing ↦ inl (missing, rw missing refl)
  | inr there ↦ elim (Bool-cases (lacks_range unicode args)) [
    | inl lacks ↦ inr (inl (there, lacks, rw (there, lacks) refl))
    | inr fine ↦ inr (inr (there, fine, st, rw (there, fine) refl, prints))
  ]
]

abbrev registered_at : LogState → LogState
registered_at st = record st {
  loggers = st.loggers ++ console_at 7 ∷ [];
  vlog = all_at (length st.loggers);
}

verify_args-set_level :
    (unicode : Text → Text) (args : Args) (st : LogState) (o : Option ℕ)
    → length st.vlog ≡ 5
    → new_log_level unicode args.log_level ≡ o
    → verify_args unicode args st ≡ set_level unicode args o (registered_at st)
unfolding verify_args
verify_args-set_level unicode args st o h e =
    rw (registered st (console_at 7) h, e, verify_args) refl

set_level-check_args :
    (unicode : Text → Text) (args : Args) (st : LogState) (ll : ℕ)
    → ll < 5
    → set_level unicode args (some ll) (registered_at st) ≡ check_args unicode args (at_level st ll)
unfolding set_level
set_level-check_args unicode args st ll h = rw (level_set st ll h, set_level) refl

verified :
    (unicode : Text → Text) (args : Args) (st : LogState)
    → length st.vlog ≡ 5
    → (o : Option ℕ) → new_log_level unicode args.log_level ≡ o
    → InRange o
    → ((new_log_level unicode args.log_level ≡ none)
        × (verify_args unicode args st ≡ rejected unknown_log_level))
      ⊎ ((ll : ℕ) × (new_log_level unicode args.log_level ≡ some ll)
          × (ll < 5)
          × Checked unicode args (verify_args unicode args st) ll)
unfolding set_level
verified unicode args st h o e (inl unknown) =
    inl (e ∙ unknown, verify_args-set_level unicode args st none h (e ∙ unknown))
verified unicode args st h o e (inr (ll, known, bound)) =
    let ends =
      verify_args-set_level unicode args st (some ll) h (e ∙ known)
      ∙ set_level-check_args unicode args st ll bound in
    inr (
      ll,
      e ∙ known,
      bound,
      subst (λ v. Checked unicode args v ll) (sym ends)
          (check_args-Checked unicode args (at_level st ll) ll
            (λ m msg small. logged st ll m msg bound small)),
    )

-- From a state with a place for each level, verifyArgs ends in one of four ways, and never with a
-- panic: with the error of the level, where its name is none; with the error of the orchestration,
-- where it is empty; with the error of the range, where it is empty and the provider is the default
-- one; and else it accepts the arguments, in lower case and without the quotes of the range, and
-- from then on exactly the messages of the level and above are printed.
pub verify_args-outcome :
    (unicode : Text → Text) (args : Args) (st : LogState)
    → length st.vlog ≡ 5
    → ((new_log_level unicode args.log_level ≡ none)
        × (verify_args unicode args st ≡ rejected unknown_log_level))
      ⊎ ((ll : ℕ) × (new_log_level unicode args.log_level ≡ some ll)
          × (ll < 5)
          × Checked unicode args (verify_args unicode args st) ll)
verify_args-outcome unicode args st h =
    verified unicode args st h (new_log_level unicode args.log_level) refl
      (new_log_level-InRange unicode args.log_level)

-- Without any flag the orchestration is asked for.
verify_args-default_args :
    (unicode : Text → Text) (st : LogState)
    → length st.vlog ≡ 5
    → verify_args unicode default_args st ≡ rejected orchestration_required
unfolding default_args check_args new_log_level text_eq
verify_args-default_args unicode st h =
    verify_args-set_level unicode default_args st (some 1) h refl
    ∙ set_level-check_args unicode default_args st 1 (omega arith)
