-- ===== src/Controller.antt =====
-- pkg/controller/controller.go: the loop that turns requests into calls of the manager and responses.
-- A response that the source sends from a goroutine is the second result of a round; System has the
-- orders in which the goroutines deliver them.
pub mod Serve
pub mod Answers
pub mod Retry
pub mod Fresh
pub mod First
pub mod Restart
pub mod Exclusive
pub mod Addresses
pub mod Accounted
pub mod Faults
use f5_ipam_controller_base.Base.{
  Bool, true, false, Option, none, some, List, [], ◌∷◌, not, if◌then◌else◌,
}
use f5_ipam_controller_base.Base.Text.{Text, text_eq, is_empty}
use f5_ipam_controller_base.Ipamspec.{IpamRequest, IpamResponse, create_op, delete_op}
use f5_ipam_controller_base.Manager.{Manager}

abbrev pub respond : IpamRequest → Text → Bool → Option IpamResponse
respond req ip status = some (record { request = req; ip_addr = ip; status = status })

module _ {S : Type 0} (m : Manager S) where
  -- CREATE with an address: on a restart the address of the resource's status is claimed again.
  unfoldable pub create_asked : IpamRequest → S → S × Option IpamResponse
  create_asked req s =
      let (s1, taken) = m.allocate_ip_address req.cidr req.ip_addr s in
      if taken
      then ((m.create_a_record req.host_name req.ip_addr s1).0, respond req req.ip_addr true)
      else (s1, respond req [] false)

  -- A new address; where there is none, no response is sent.
  unfoldable pub create_next : IpamRequest → S → S × Option IpamResponse
  create_next req s =
      let (s1, ip) = m.get_next_ip_address req.cidr s in
      if not (is_empty ip)
      then ((m.create_a_record req.host_name ip s1).0, respond req ip true)
      else (s1, none)

  unfoldable pub create_any : IpamRequest → S → S × Option IpamResponse
  unfolding create_next
  create_any req s =
      let (s1, ip) = m.get_ip_address req.host_name s in
      if not (is_empty ip) then (s1, respond req ip true) else create_next req s1

  unfoldable pub delete : IpamRequest → S → S × Option IpamResponse
  delete req s =
      let (s1, ip) = m.get_ip_address req.host_name s in
      if not (is_empty ip)
      then (m.delete_a_record req.host_name ip (m.release_ip_address ip s1), respond req [] true)
      else (s1, respond req [] true)

  -- One round of the loop of `runController`.
  unfoldable pub handle : IpamRequest → S → S × Option IpamResponse
  unfolding create_asked create_any delete
  handle req s =
      if text_eq req.operation create_op
      then (if not (is_empty req.ip_addr) then create_asked req s else create_any req s)
      else if text_eq req.operation delete_op
      then delete req s
      else (s, none)

  abbrev pub sent : Option IpamResponse → List IpamResponse → List IpamResponse
  sent none rest = rest
  sent (some r) rest = r ∷ rest

  -- The loop over a sequence of requests, with the responses in the order in which they are made.
  unfoldable pub run : List IpamRequest → S → S × List IpamResponse
  unfolding handle
  run [] s = (s, [])
  run (req ∷ reqs) s =
      let (s1, resp) = handle req s in let (s2, resps) = run reqs s1 in (s2, sent resp resps)
