-- ===== src/Examples/Answers.antt =====
-- The answers to a first CREATE of a host and to a second one.
use f5_ipam_controller_base.Base.{ap, ◌≡◌, refl, some, true}
use f5_ipam_controller_base.Base.Text.{text, text_eq}
use f5_ipam_controller_base.Ipamspec.{IpamRequest, IpamResponse, create_op}
use f5_ipam_controller_base.Store.Engine.{range_literal, host_literal}
use f5_ipam_controller_base.Store.Release.{Holds}
use f5_ipam_controller_base.Store.Memory.{memory, memory-IsSqlite, memory-NeverFails}
use f5_ipam_controller_base.Manager.{ipam_manager, is_ipv4_addr}
use f5_ipam_controller_base.Controller
use f5_ipam_controller_base.Controller.Serve.{IsQuoted}
use f5_ipam_controller_base.Controller.Retry.{create-retry}
use f5_ipam_controller_base.Provider.Ranges.{Provider}
use f5_ipam_controller_base.Controller.Answers.{handle-Holds}
use f5_ipam_controller_base.Examples.Serving.{provider, request}

abbrev first : IpamRequest
first = request create_op (text "a.com")

abbrev answer : IpamResponse
answer = record { request = first; ip_addr = text "10.0.0.1"; status = true }

first-IsQuoted : IsQuoted first
unfolding range_literal host_literal text_eq
first-IsQuoted = record { cidr = refl; ip_addr = refl; host_name = refl }

answered : (Controller.handle (ipam_manager memory) first provider).1 ≡ some answer
unfolding text_eq Controller.handle f5_ipam_controller_base.Manager.get_ip_address
    f5_ipam_controller_base.Provider.Ipam.get_ip_address
    f5_ipam_controller_base.Store.Dbstore.get_ip_address
    f5_ipam_controller_base.Store.Memory.memory_query
    f5_ipam_controller_base.Store.Tables.least_address
    f5_ipam_controller_base.Manager.get_next_ip_address f5_ipam_controller_base.Net.Parse.parse_cidr
    f5_ipam_controller_base.Net.Parse.cut_slash f5_ipam_controller_base.Net.Parse.parse_ipv4
    f5_ipam_controller_base.Net.Parse.dtoi f5_ipam_controller_base.Net.Parse.with_mask
    f5_ipam_controller_base.Net.Parse.with_ones f5_ipam_controller_base.Provider.Ipam.get_next_addr
    f5_ipam_controller_base.Store.Dbstore.allocate_ip
    f5_ipam_controller_base.Store.Tables.select_first
answered = refl

answer_ipv4 : is_ipv4_addr (text "10.0.0.1") ≡ true
unfolding is_ipv4_addr f5_ipam_controller_base.Net.Parse.parse_ip
    f5_ipam_controller_base.Net.Parse.parse_ipv4 f5_ipam_controller_base.Net.Parse.dtoi
answer_ipv4 = refl

handle-Holds_example :
    (first ≡ first)
    × Holds
        (text "10.0.0.1")
        (text "a.com")
        (Controller.handle (ipam_manager memory) first provider).0.store.records
unfolding text_eq
handle-Holds_example =
    handle-Holds memory memory-IsSqlite memory-NeverFails first provider answer first-IsQuoted refl
      answered refl answer_ipv4

abbrev served : Provider
served = (Controller.handle (ipam_manager memory) first provider).0

abbrev elsewhere : IpamRequest
elsewhere = record first { cidr = text "10.9.0.0/24" }

elsewhere-IsQuoted : IsQuoted elsewhere
unfolding range_literal host_literal text_eq
elsewhere-IsQuoted = record { cidr = refl; ip_addr = refl; host_name = refl }

create-retry_example :
    Controller.handle (ipam_manager memory) elsewhere served
    ≡ (served, Controller.respond elsewhere (text "10.0.0.1") true)
unfolding text_eq
create-retry_example =
    create-retry memory memory-IsSqlite memory-NeverFails first elsewhere provider served answer
      first-IsQuoted elsewhere-IsQuoted tt refl refl refl refl refl (ap (λ r. (served, r)) answered)
      refl answer_ipv4
