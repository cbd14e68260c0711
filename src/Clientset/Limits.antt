-- ===== src/Clientset/Limits.antt =====
-- The rate limiter of a clientset.
use f5_ipam_controller_base.Base.{◌≡◌, ◌≢◌, true, Option, some, none}
use f5_ipam_controller_base.Clientset.Configs.{
  Config, ClientGo, Made, made, failed, set_config_defaults,
}

-- The configuration that both clients are made of.
pub record AreOf {Q L R D : Type 0} (go : ClientGo Q L R D) (c : Config Q L) (typed : R)
    (discovery : D) : Type 0 where
  pub typed_of : go.rest_client_for (set_config_defaults go c) ≡ some typed
  pub discovery_of : go.discovery_for_config c ≡ some discovery
  pub limited : go.is_positive c.qps ≡ true → c.rate_limiter ≢ none

module _ {Q L R D : Type 0} (go : ClientGo Q L R D) where
  -- A configuration with a rate limiter where one is wanted.
  abbrev Limited : Option (Config Q L) → Type 0
  Limited none = Unit
  Limited (some c) = go.is_positive c.qps ≡ true → c.rate_limiter ≢ none

  first_of : R → Made (R × D) → R
  first_of other (made (t, d)) = t
  first_of other (failed err) = other

  second_of : D → Made (R × D) → D
  second_of other (made (t, d)) = d
  second_of other (failed err) = other
