-- ===== src/Manager.antt =====
-- pkg/manager: the Manager interface, and IPAMManager, which validates what it hands to the provider.
pub mod Cases
pub mod Faults
pub mod Unmarked
use f5_ipam_controller_base.Base.{Bool, true, false, not, Option, none, some, if◌then◌else◌}
use f5_ipam_controller_base.Base.Text.{Text, text, text_eq, contains}
use f5_ipam_controller_base.Net.Parse.{parse_ip, parse_cidr}
use f5_ipam_controller_base.Store.Engine.{Sqlite}
use f5_ipam_controller_base.Provider.Ranges.{Provider, Outcome, returns, new_provider}
use f5_ipam_controller_base.Provider.Ipam

-- The Go interface, as operations on a state.
pub record Manager (S : Type 0) : Type 0 where
  pub create_a_record : Text → Text → S → S × Bool
  pub delete_a_record : Text → Text → S → S
  pub get_ip_address : Text → S → S × Text
  pub get_next_ip_address : Text → S → S × Text
  pub allocate_ip_address : Text → Text → S → S × Bool
  pub release_ip_address : Text → S → S

abbrev is_parsed {ℓ} : {A : Type ℓ} → Option A → Bool
is_parsed none = false
is_parsed (some a) = true

-- `isIPV4Addr`.
unfoldable pub is_ipv4_addr : Text → Bool
is_ipv4_addr addr =
    if not (is_parsed (parse_ip addr)) then false else if contains addr b':' then false else true

module _ (e : Sqlite) where
  unfoldable pub create_a_record : Text → Text → Provider → Provider × Bool
  create_a_record host ip prov =
      if not (is_ipv4_addr ip)
      then (prov, false)
      else ((Ipam.create_a_record e host ip prov).0, true)

  unfoldable pub delete_a_record : Text → Text → Provider → Provider
  delete_a_record host ip prov =
      if not (is_ipv4_addr ip) then prov else Ipam.delete_a_record e host ip prov

  unfoldable pub get_ip_address : Text → Provider → Provider × Text
  get_ip_address host prov = Ipam.get_ip_address e host prov

  unfoldable pub get_next_ip_address : Text → Provider → Provider × Text
  get_next_ip_address cidr prov =
      if not (is_parsed (parse_cidr cidr)) then (prov, text "") else Ipam.get_next_addr e cidr prov

  unfoldable pub allocate_ip_address : Text → Text → Provider → Provider × Bool
  allocate_ip_address cidr ip prov = Ipam.allocate_ip_address e cidr ip prov

  unfoldable pub release_ip_address : Text → Provider → Provider
  release_ip_address ip prov = if not (is_ipv4_addr ip) then prov else Ipam.release_addr e ip prov

  -- IPAMManager as a Manager.
  abbrev pub ipam_manager : Manager Provider
  ipam_manager = record {
    create_a_record = create_a_record;
    delete_a_record = delete_a_record;
    get_ip_address = get_ip_address;
    get_next_ip_address = get_next_ip_address;
    allocate_ip_address = allocate_ip_address;
    release_ip_address = release_ip_address;
  }

  -- `NewIPAMManager`: nil where the provider is nil.
  unfoldable pub new_ipam_manager : Text → Outcome (Option Provider)
  new_ipam_manager range = new_provider e range

  -- `NewManager`: nil for any other provider name; a nil *IPAMManager comes back inside the interface,
  -- which is `none` here too.
  unfoldable pub new_manager : Text → Text → Outcome (Option Provider)
  unfolding new_ipam_manager
  new_manager provider range =
      if text_eq provider (text "f5-ip-provider") then new_ipam_manager range else returns none
