-- ===== src/Examples/Serving.antt =====
-- A pool of two addresses that serves three hosts, over the engine in memory.
use f5_ipam_controller_base.Base.{arith, ℕ, ◌≡◌, refl, ◌⊎◌, inl, false, In, List, [], ◌∷◌, All}
use f5_ipam_controller_base.Base.Text.{Text, text, text_eq, ne_of_text_eq}
use f5_ipam_controller_base.Ipamspec.{IpamRequest, create_op, delete_op}
use f5_ipam_controller_base.Store.Tables.{
  RangeRow, Tables, available, allocated, set_status_id, is_free,
}
use f5_ipam_controller_base.Store.Engine.{range_literal, host_literal}
use f5_ipam_controller_base.Store.Least.{IsFirstFree, allocate_ip-least}
use f5_ipam_controller_base.Store.Dbstore.{allocate_ip}
use f5_ipam_controller_base.Store.Engine.{NeverFails-IsReliable}
use f5_ipam_controller_base.Store.Memory.{memory, memory-IsSqlite, memory-NeverFails}
use f5_ipam_controller_base.Store.Exclusive.{IsExclusive}
use f5_ipam_controller_base.Store.Accounted.{IsAccounted}
use f5_ipam_controller_base.Net.Parse.{parse_ip, parse_ip_at, parse_ipv4, dtoi}
use f5_ipam_controller_base.Provider.Ranges.{Provider}
use f5_ipam_controller_base.Manager.{ipam_manager, is_ipv4_addr}
use f5_ipam_controller_base.Controller
use f5_ipam_controller_base.Controller.Serve.{IsQuoted, Served, handle-Served}
use f5_ipam_controller_base.Controller.Addresses.{addresses, AllIpv4}

abbrev row : ℕ → Text → RangeRow
row n ip = record { id = n; ipaddress = ip; status = available; cidr = text "10.0.0.0/24" }

abbrev pub pool : Tables
pool = record {
  ranges = row 1 (text "10.0.0.1") ∷ row 2 (text "10.0.0.2") ∷ [];
  next_id = 3;
  records = [];
}

abbrev pub provider : Provider
provider = record { store = pool; cidrs = text "10.0.0.0/24" ∷ [] }

abbrev pub request : Text → Text → IpamRequest
request operation host = record {
  metadata = record { name = text "crd"; namespace = text "kube-system" };
  host_name = host;
  cidr = text "10.0.0.0/24";
  ip_addr = [];
  operation = operation;
}

abbrev pub requests : List IpamRequest
requests =
    request create_op (text "a.com")
    ∷ request create_op (text "b.com")
    ∷ request delete_op (text "a.com")
    ∷ request create_op (text "c.com")
    ∷ []

pub requests-IsQuoted : All IsQuoted requests
unfolding range_literal host_literal text_eq
requests-IsQuoted = (
  record { cidr = refl; ip_addr = refl; host_name = refl },
  (
    record { cidr = refl; ip_addr = refl; host_name = refl },
    (
      record { cidr = refl; ip_addr = refl; host_name = refl },
      (record { cidr = refl; ip_addr = refl; host_name = refl }, tt),
    ),
  ),
)

pub pool-IsExclusive : IsExclusive pool
unfolding text_eq
pool-IsExclusive = record {
  pool = ((ne_of_text_eq (text "10.0.0.2") (text "10.0.0.1") refl, tt), (tt, tt));
  held = tt;
  taken = tt;
}

pub pool-IsAccounted : IsAccounted pool
pool-IsAccounted = record {
  ids = ((omega arith, tt), (tt, tt));
  rows_held = (inl refl, (inl refl, tt));
}

pub pool-AllIpv4 : AllIpv4 (addresses pool.ranges)
unfolding is_ipv4_addr parse_ip parse_ip_at parse_ipv4 dtoi
pool-AllIpv4 = (refl, (refl, tt))

handle-Served_example :
    Served
      (request create_op (text "a.com"))
      provider
      (Controller.handle (ipam_manager memory) (request create_op (text "a.com")) provider).0
handle-Served_example =
    handle-Served memory memory-IsSqlite memory-NeverFails (request create_op (text "a.com"))
      provider requests-IsQuoted.0

allocate_ip-least_example :
    ((allocate_ip memory (text "10.0.0.0/24") pool ≡ (pool, []))
      × ((x : RangeRow) → In x pool.ranges → is_free (text "10.0.0.0/24") x ≡ false))
    ⊎ ((r : RangeRow) × IsFirstFree (text "10.0.0.0/24") pool.ranges r
        × (allocate_ip memory (text "10.0.0.0/24") pool
            ≡ (record pool { ranges = set_status_id allocated r.id pool.ranges }, r.ipaddress)))
allocate_ip-least_example =
    allocate_ip-least memory memory-IsSqlite (NeverFails-IsReliable memory-NeverFails)
      (text "10.0.0.0/24") pool requests-IsQuoted.0.cidr
