-- ===== src/Examples/Sharing.antt =====
-- A factory with one informer, a number, that is asked for twice and started twice.
use f5_ipam_controller_base.Base.{
  ℕ, ◌≡◌, ◌≢◌, refl, true, none, some, List, [], ◌∷◌, In, ◌==◌, if◌then◌else◌,
}
use f5_ipam_controller_base.Base.Text.{Text, text, text_eq, ne_of_text_eq}
use f5_ipam_controller_base.Base.Maps.{Map, DistinctKeys, lookup}
use f5_ipam_controller_base.Factory.{
  Factory, informer_for, new_shared_informer_factory, wait_for_cache_sync, is_started,
}
use f5_ipam_controller_base.Factory.Shared.{Use, starts, asks, use_all, informer_for-shared}
use f5_ipam_controller_base.Factory.Once.{Known}
use f5_ipam_controller_base.Factory.Started.{started, start-once}
use f5_ipam_controller_base.Factory.Sync.{map_option, wait_for_cache_sync-lookup}

abbrev kind : Text
kind = text "F5IPAM"

abbrev ranged : Map ℕ → Map ℕ
ranged m = m

abbrev make : ℕ → ℕ → ℕ
make client period = 1

abbrev again : ℕ → ℕ → ℕ
again client period = 2

abbrev uses : List (Use ℕ ℕ ℕ)
uses = asks kind make ∷ starts ranged ∷ asks kind again ∷ []

abbrev fresh : Factory ℕ ℕ ℕ Unit
fresh = new_shared_informer_factory 0 30

informer_for-shared_example :
    informer_for kind again (use_all uses (informer_for kind make fresh).0)
    ≡ (use_all uses (informer_for kind make fresh).0, (informer_for kind make fresh).1)
informer_for-shared_example = informer_for-shared kind make again uses fresh

start-once_example :
    DistinctKeys (started Unit 0 30 uses ranged).running
    × Known (started Unit 0 30 uses ranged) (started Unit 0 30 uses ranged).running
    × ((k : Text) (i : ℕ)
        → lookup k (started Unit 0 30 uses ranged).informers ≡ some i
        → In (k, i) (started Unit 0 30 uses ranged).running)
start-once_example =
    start-once Unit 0 30 uses ranged (tt, ((λ x m. (λ h. h, λ h. h)), (tt, tt)))
      (λ x m. (λ h. h, λ h. h))

abbrev ready : Factory ℕ ℕ ℕ Unit
ready = record {
  client = 0;
  namespace = [];
  tweak_list_options = none;
  default_resync = 30;
  custom_resync = [];
  informers = (kind, 1) ∷ (text "Pod", 2) ∷ [];
  started_informers = (kind, true) ∷ [];
  running = (kind, 1) ∷ [];
}

kinds_differ : text "Pod" ≢ kind
unfolding text_eq
kinds_differ = ne_of_text_eq (text "Pod") kind refl

wait_for_cache_sync-lookup_example :
    lookup kind (wait_for_cache_sync ranged ranged (λ i. i == 1) ready) ≡ (
      if is_started kind ready
      then map_option (λ i. i == 1) (lookup kind ready.informers)
      else none)
wait_for_cache_sync-lookup_example =
    wait_for_cache_sync-lookup ranged ranged (λ i. i == 1) ready kind ((kinds_differ, tt), (tt, tt))
      (λ x m. (λ h. h, λ h. h)) (λ x m. (λ h. h, λ h. h))
