-- ===== src/Orchestration/Mapped.antt =====
-- The status of a resource stays a map from a host and a CIDR to an address, and a response is an
-- update of that map.
use f5_ipam_controller_base.Base.{
  ◌≡◌, refl, inl, inr, false, Option, none, some, List, [], ◌∷◌, ◌++◌, any, arith, Bool-cases,
  Option-cases, if◌then◌else◌,
}
use f5_ipam_controller_base.Base.Text.{Text, text_eq, text_eq_iff}
use f5_ipam_controller_base.Fic.{IpSpec}
use f5_ipam_controller_base.Ipamspec.{IpamResponse, create_op, delete_op}
use f5_ipam_controller_base.Orchestration.Response.{is_entry, set_entries, add_entry, remove_entry}
use f5_ipam_controller_base.Orchestration.Entries.{
  address_of, IsMap, same_key, address_of-add_entry, address_of-remove_entry, remove_entry_absent,
}
use f5_ipam_controller_base.Orchestration.Cluster.{next_status, removed}

module _ (host cidr ip : Text) where
  set_entries-none :
      (h c : Text) (specs : List IpSpec)
      → address_of h c specs ≡ none
      → address_of h c (set_entries host cidr ip specs) ≡ none
  unfolding address_of set_entries
  set_entries-none h c [] n = refl
  set_entries-none h c (s ∷ specs) n = ground (arith, set_entries-none h c specs)

  set_entries-IsMap : (specs : List IpSpec) → IsMap specs → IsMap (set_entries host cidr ip specs)
  unfolding set_entries
  set_entries-IsMap [] m = tt
  set_entries-IsMap (s ∷ specs) m =
      ground (arith, set_entries-none s.host s.cidr specs m.0, set_entries-IsMap specs m.1)

  append-none :
      (h c : Text) (specs : List IpSpec)
      → same_key host cidr h c ≡ false
      → address_of h c specs ≡ none
      → address_of h c (specs ++ record { host = host; cidr = cidr; ip = ip } ∷ []) ≡ none
  unfolding address_of
  append-none h c [] d n = ground arith
  append-none h c (s ∷ specs) d n = ground (arith, append-none h c specs)

  append-IsMap :
      (specs : List IpSpec)
      → any (is_entry host cidr) specs ≡ false
      → IsMap specs
      → IsMap (specs ++ record { host = host; cidr = cidr; ip = ip } ∷ [])
  unfolding address_of
  append-IsMap [] n m = (refl, tt)
  append-IsMap (s ∷ specs) n m = (
    append-none s.host s.cidr specs
        (ground (
          arith,
          text_eq_iff host s.host,
          text_eq_iff cidr s.cidr,
          text_eq_iff s.host host,
          text_eq_iff s.cidr cidr,
        ))
        m.0,
    append-IsMap specs (ground arith) m.1,
  )

  set_entries_new :
      (specs : List IpSpec)
      → any (is_entry host cidr) specs ≡ false
      → any (is_entry host cidr) (set_entries host cidr ip specs) ≡ false
  unfolding set_entries
  set_entries_new [] n = refl
  set_entries_new (s ∷ specs) n = ground (arith, set_entries_new specs)

  add_entry-IsMap : (specs : List IpSpec) → IsMap specs → IsMap (add_entry host cidr ip specs)
  unfolding add_entry
  add_entry-IsMap specs m = elim (Bool-cases (any (is_entry host cidr) specs)) [
    | inl there ↦ rw there (set_entries-IsMap specs m)
    | inr new ↦ rw new (append-IsMap _ (set_entries_new specs new) (set_entries-IsMap specs m))
  ]

module _ (host cidr : Text) where
  remove_entry-none :
      (h c : Text) (specs rest : List IpSpec)
      → address_of h c specs ≡ none
      → remove_entry host cidr specs ≡ some rest
      → address_of h c rest ≡ none
  unfolding address_of remove_entry
  remove_entry-none h c [] rest n e = cc
  remove_entry-none h c (s ∷ specs) rest n e = elim (Option-cases (remove_entry host cidr specs)) [
    | inl missing ↦ ground arith
    | inr (r, found) ↦ ground (arith, remove_entry-none h c specs r)
  ]

  remove_entry-IsMap :
      (specs rest : List IpSpec)
      → IsMap specs
      → remove_entry host cidr specs ≡ some rest
      → IsMap rest
  unfolding remove_entry
  remove_entry-IsMap [] rest m e = cc
  remove_entry-IsMap (s ∷ specs) rest m e = elim (Option-cases (remove_entry host cidr specs)) [
    | inl missing ↦ ground arith
    | inr (r, found) ↦ ground (
      arith,
      remove_entry-none s.host s.cidr specs r m.0 found,
      remove_entry-IsMap specs r m.1 found,
    )
  ]

-- What a response makes of the address of its host and CIDR.
abbrev pub verdict : IpamResponse → Option Text → Option Text
verdict resp old =
    if text_eq resp.request.operation create_op
    then (if resp.status then some resp.ip_addr else none)
    else if text_eq resp.request.operation delete_op
    then (if resp.status then none else old)
    else old

removed-IsMap :
    (host cidr : Text) (specs : List IpSpec)
    → IsMap specs
    → IsMap (removed (remove_entry host cidr specs) specs)
removed-IsMap host cidr specs m = elim (Option-cases (remove_entry host cidr specs)) [
  | inl missing ↦ rw missing m
  | inr (rest, found) ↦ rw found (remove_entry-IsMap host cidr specs rest m found)
]

address_of-removed :
    (host cidr h c : Text) (specs : List IpSpec)
    → IsMap specs
    → address_of h c (removed (remove_entry host cidr specs) specs)
      ≡ (if same_key host cidr h c then none else address_of h c specs)
address_of-removed host cidr h c specs m = elim (Option-cases (remove_entry host cidr specs)) [
  | inl missing ↦ rw missing (
      ground (
        arith,
        remove_entry_absent host cidr specs missing,
        text_eq_iff host h,
        text_eq_iff cidr c,
      ))
  | inr (rest, found) ↦ rw found (address_of-remove_entry host cidr h c specs rest m found)
]

-- A status that is a map stays one under a response.
pub next_status-IsMap :
    (resp : IpamResponse) (specs : List IpSpec) → IsMap specs → IsMap (next_status resp specs)
next_status-IsMap resp specs m =
    let gone = removed-IsMap resp.request.host_name resp.request.cidr specs m in
    let set = add_entry-IsMap resp.request.host_name resp.request.cidr resp.ip_addr specs m in
    elim (Bool-cases (text_eq resp.request.operation create_op)) [
      | inl creates ↦
          rw creates
            (elim (Bool-cases resp.status) [ inl good ↦ rw good set | inr bad ↦ rw bad gone ])
      | inr other ↦ rw other (elim (Bool-cases (text_eq resp.request.operation delete_op)) [
        | inl deletes ↦
            rw deletes
              (elim (Bool-cases resp.status) [ inl good ↦ rw good gone | inr bad ↦ rw bad m ])
        | inr unknown ↦ rw unknown m
      ])
    ]

-- A response updates the map at its host and CIDR.
pub address_of-next_status :
    (resp : IpamResponse) (h c : Text) (specs : List IpSpec)
    → IsMap specs
    → address_of h c (next_status resp specs) ≡ (
        if same_key resp.request.host_name resp.request.cidr h c
        then verdict resp (address_of h c specs)
        else address_of h c specs)
address_of-next_status resp h c specs m =
    let gone = address_of-removed resp.request.host_name resp.request.cidr h c specs m in
    let set =
      address_of-add_entry resp.request.host_name resp.request.cidr resp.ip_addr h c specs in
    elim (Bool-cases (text_eq resp.request.operation create_op)) [
      | inl creates ↦
          rw creates
            (elim (Bool-cases resp.status) [ inl good ↦ rw good set | inr bad ↦ rw bad gone ])
      | inr other ↦ rw other (elim (Bool-cases (text_eq resp.request.operation delete_op)) [
        | inl deletes ↦ rw deletes (elim (Bool-cases resp.status) [
          | inl good ↦ rw good gone
          | inr bad ↦ rw bad (ground arith)
        ])
        | inr unknown ↦ rw unknown (ground arith)
      ])
    ]
