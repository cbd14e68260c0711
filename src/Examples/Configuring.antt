-- ===== src/Examples/Configuring.antt =====
-- A configuration over constructors that always succeed.
use f5_ipam_controller_base.Base.{ℕ, true, some, none, [], ltb}
use f5_ipam_controller_base.Base.Text.{text}
use f5_ipam_controller_base.Clientset.Configs.{Config, ClientGo, ℤ, pos}

abbrev go : ClientGo ℕ ℕ ℕ ℕ
go = record {
  rest_client_for = λ c. some 1;
  discovery_for_config = λ c. some 2;
  discovery_client = λ r. 2;
  token_bucket = λ qps burst. qps;
  default_user_agent = text "agent";
  is_positive = λ qps. ltb 0 qps;
}

abbrev config : Config ℕ ℕ
config = record {
  group_version = none;
  api_path = [];
  without_conversion = true;
  user_agent = [];
  qps = 5;
  burst = pos 10;
  rate_limiter = none;
}
