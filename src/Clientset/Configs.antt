-- ===== src/Clientset/Configs.antt =====
-- pkg/ipamapis/client/clientset/versioned/clientset.go and typed/fic/v1/fic_client.go: how the clients
-- are made of a REST configuration. The constructors of client-go and its rate limiter are parameters,
-- and of a configuration only the fields are kept that the code reads or sets.
use f5_ipam_controller_base.Base.{
  ℕ, zero, suc, Bool, true, false, ◌&&◌, Option, none, some, if◌then◌else◌,
}
use f5_ipam_controller_base.Base.Text.{Text, text, is_empty}
use f5_ipam_controller_base.Provider.Ranges.{Outcome, returns, panics}

pub data ℤ : Type 0 where
  pos : ℕ → ℤ
  negsuc : ℕ → ℤ

-- `i <= 0`
abbrev pub not_positive : ℤ → Bool
not_positive (pos zero) = true
not_positive (pos (suc n)) = false
not_positive (negsuc n) = true

-- rest.Config, with `Q` for float32 and `L` for a rate limiter; the serializer is told by whether it
-- is the scheme's without conversion.
pub record Config (Q L : Type 0) : Type 0 where
  pub group_version : Option (Text × Text)
  pub api_path : Text
  pub without_conversion : Bool
  pub user_agent : Text
  pub qps : Q
  pub burst : ℤ
  pub rate_limiter : Option L

-- client-go: a REST client or a discovery client of a configuration, with `none` for an error, a
-- discovery client of a REST client, a token bucket, DefaultKubernetesUserAgent, and `qps > 0`.
pub record ClientGo (Q L R D : Type 0) : Type 0 where
  pub rest_client_for : Config Q L → Option R
  pub discovery_for_config : Config Q L → Option D
  pub discovery_client : R → D
  pub token_bucket : Q → ℤ → L
  pub default_user_agent : Text
  pub is_positive : Q → Bool

pub data ConfigError : Type 0 where
  burst_required no_typed_client no_discovery_client : ConfigError

pub data Made (A : Type 0) : Type 0 where
  made : A → Made A
  failed : ConfigError → Made A

abbrev pub is_nil {ℓ} : {A : Type ℓ} → Option A → Bool
is_nil none = true
is_nil (some a) = false

module _ {Q L R D : Type 0} (go : ClientGo Q L R D) where
  -- `setConfigDefaults`, which has no error.
  unfoldable pub set_config_defaults : Config Q L → Config Q L
  set_config_defaults c = record c {
    group_version = some (text "fic.f5.com", text "v1");
    api_path = text "/apis";
    without_conversion = true;
    user_agent = if is_empty c.user_agent then go.default_user_agent else c.user_agent;
  }

  -- NewForConfig of fic_client.go.
  unfoldable pub typed_for_config : Config Q L → Option R
  unfolding set_config_defaults
  typed_for_config c = go.rest_client_for (set_config_defaults c)

  abbrev or_panic : {A : Type 0} → Option A → Outcome A
  or_panic none = panics
  or_panic (some a) = returns a

  -- NewForConfigOrDie of fic_client.go.
  unfoldable pub typed_for_config_or_die : Config Q L → Outcome R
  unfolding typed_for_config
  typed_for_config_or_die c = or_panic (typed_for_config c)

  -- The shallow copy, with a rate limiter where one is wanted; `none` is the error of the burst.
  unfoldable pub with_limiter : Config Q L → Option (Config Q L)
  with_limiter c =
      if is_nil c.rate_limiter && go.is_positive c.qps
      then (if not_positive c.burst
          then none
          else some (record c { rate_limiter = some (go.token_bucket c.qps c.burst) }))
      else some c

  unfoldable pub discovered : R → Option D → Made (R × D)
  discovered typed none = failed no_discovery_client
  discovered typed (some discovery) = made (typed, discovery)

  unfoldable pub both_clients : Config Q L → Option R → Made (R × D)
  unfolding discovered
  both_clients c none = failed no_typed_client
  both_clients c (some typed) = discovered typed (go.discovery_for_config c)

  unfoldable pub clients_of : Option (Config Q L) → Made (R × D)
  unfolding both_clients typed_for_config
  clients_of none = failed burst_required
  clients_of (some c) = both_clients c (typed_for_config c)

  -- NewForConfig of clientset.go.
  unfoldable pub new_for_config : Config Q L → Made (R × D)
  unfolding clients_of with_limiter
  new_for_config c = clients_of (with_limiter c)

  unfoldable pub with_discovery : Outcome R → Config Q L → Outcome (R × D)
  with_discovery (returns typed) c = elim (go.discovery_for_config c) [
    | none ↦ panics
    | some discovery ↦ returns (typed, discovery)
  ]
  with_discovery _ c = panics

  -- NewForConfigOrDie of clientset.go, which makes no limiter.
  unfoldable pub new_for_config_or_die : Config Q L → Outcome (R × D)
  unfolding with_discovery typed_for_config_or_die
  new_for_config_or_die c = with_discovery (typed_for_config_or_die c) c

  -- New of clientset.go.
  unfoldable pub new_clientset : R → R × D
  new_clientset rest = (rest, go.discovery_client rest)

-- RESTClient of K8sV1Client, `K8sV1` and `Discovery` of Clientset; `none` is nil.
abbrev pub rest_client : {R : Type 0} → Option R → Option R
rest_client none = none
rest_client (some client) = some client

abbrev pub k8s_v1 : {R D : Type 0} → R × D → R
k8s_v1 (typed, discovery) = typed

abbrev pub discovery : {R D : Type 0} → Option (R × D) → Option D
discovery none = none
discovery (some (typed, client)) = some client
