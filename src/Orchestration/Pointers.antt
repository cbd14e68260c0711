-- ===== src/Orchestration/Pointers.antt =====
-- `processResponse` of pkg/orchestration/kuberntes.go on a status that may hold nil pointers: each of its
-- two loops dereferences every entry.
use f5_ipam_controller_base.Base.{
  ◌≡◌, refl, inl, inr, Bool, true, false, ◌&&◌, ◌||◌, Option, none, some, List, ◌∷◌, ◌++◌, map,
  arith, Bool-cases, if◌then◌else◌,
}
use f5_ipam_controller_base.Base.Text.{text_eq}
use f5_ipam_controller_base.Fic.{IpSpec}
use f5_ipam_controller_base.Ipamspec.{IpamResponse, create_op, delete_op}
use f5_ipam_controller_base.Orchestration.Cluster.{next_status}
use f5_ipam_controller_base.Orchestration.Nils.{pointees, pointees-whole, pointees-nil}

-- A CREATE reads the status, to add the entry or, where it failed, to take it away, and so does a
-- successful DELETE.
abbrev pub reads_status : IpamResponse → Bool
reads_status resp =
    text_eq resp.request.operation create_op
    || (text_eq resp.request.operation delete_op && resp.status)

-- The status that is written, where it differs; `none` is the panic.
unfoldable pub respond_status : IpamResponse → List (Option IpSpec) → Option (List (Option IpSpec))
unfolding pointees
respond_status resp entries =
    if reads_status resp
    then elim (pointees entries) [
      | none ↦ none
      | some specs ↦ some (map some (next_status resp specs))
    ]
    else some entries

unread-same :
    (resp : IpamResponse) (specs : List IpSpec)
    → reads_status resp ≡ false
    → next_status resp specs ≡ specs
unread-same resp specs h = ground arith

-- A status without a nil pointer becomes the one that the response calls for.
pub respond_status-whole :
    (resp : IpamResponse) (specs : List IpSpec)
    → respond_status resp (map some specs) ≡ some (map some (next_status resp specs))
unfolding respond_status
respond_status-whole resp specs = elim (Bool-cases (reads_status resp)) [
  | inl reads ↦ rw (reads, pointees-whole specs) refl
  | inr other ↦ rw (other, unread-same resp specs other) refl
]

-- A nil pointer ends the process, if the response reads the status.
pub respond_status-nil :
    (resp : IpamResponse) (specs : List IpSpec) (rest : List (Option IpSpec))
    → reads_status resp ≡ true
    → respond_status resp (map some specs ++ none ∷ rest) ≡ none
unfolding respond_status
respond_status-nil resp specs rest reads = rw (reads, pointees-nil specs rest) refl
