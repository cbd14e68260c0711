-- ===== src/Fic/Copy.antt =====
-- pkg/ipamapis/apis/fic/v1/zz_generated.deepcopy.go, on a heap. A pointer is an index into the cells
-- of its type, a slice of pointers an index into the arrays, and nil is `none`.
use f5_ipam_controller_base.Base.{ℕ, Option, none, some, List, [], ◌∷◌, ◌++◌, map, get_or, length}
use f5_ipam_controller_base.Base.Text.{Text}
use f5_ipam_controller_base.Fic.{HostSpec, IpSpec}

pub record Heap (A : Type 0) : Type 0 where
  pub cells : List A
  pub arrays : List (List (Option ℕ))

-- F5IPAM with the slices that its Spec and its Status hold.
pub record Resource : Type 0 where
  pub name : Text
  pub namespace : Text
  pub host_specs : Option ℕ
  pub ip_status : Option ℕ

pub record Memory : Type 0 where
  pub resources : List Resource
  pub hosts : Heap HostSpec
  pub entries : Heap IpSpec

abbrev pub nil_resource : Resource
nil_resource = record { name = []; namespace = []; host_specs = none; ip_status = none }

module _ {A : Type 0} (zero_value : A) where
  -- The loop over the elements of a slice: each one that is not nil is copied into a new cell.
  unfoldable pub copy_pointers : List (Option ℕ) → List A → List (Option ℕ) × List A
  copy_pointers [] cells = ([], cells)
  copy_pointers (none ∷ ps) cells = let (qs, after) = copy_pointers ps cells in (none ∷ qs, after)
  copy_pointers (some p ∷ ps) cells =
      let (qs, after) = copy_pointers ps (cells ++ get_or cells p zero_value ∷ []) in
      (some (length cells) ∷ qs, after)

  -- The slice of a DeepCopyInto of F5IPAMSpec or F5IPAMStatus, with the array that it makes.
  unfoldable pub copy_slice : Option ℕ → Heap A → Option ℕ × Heap A
  copy_slice none heap = (none, heap)
  copy_slice (some a) heap =
      let (qs, cells) = copy_pointers (get_or heap.arrays a []) heap.cells in
      (some (length heap.arrays), record { cells = cells; arrays = heap.arrays ++ qs ∷ [] })

  -- `DeepCopy` of a spec or of an entry, into a new cell.
  unfoldable pub copy_cell : Option ℕ → Heap A → Option ℕ × Heap A
  copy_cell none heap = (none, heap)
  copy_cell (some p) heap = (
    some (length heap.cells),
    record heap { cells = heap.cells ++ get_or heap.cells p zero_value ∷ [] },
  )

  -- What is read through a pointer to a cell, and through a slice.
  abbrev pub read_pointer : List A → Option ℕ → Option A
  read_pointer cells none = none
  read_pointer cells (some p) = some (get_or cells p zero_value)

  abbrev pub read_slice : Option ℕ → Heap A → Option (List (Option A))
  read_slice none heap = none
  read_slice (some a) heap = some (map (read_pointer heap.cells) (get_or heap.arrays a []))

abbrev pub zero_host : HostSpec
zero_host = record { host = []; cidr = [] }

abbrev pub zero_entry : IpSpec
zero_entry = record { host = []; cidr = []; ip = [] }

-- `DeepCopyInto` of F5IPAMSpec.
abbrev pub copy_spec : Option ℕ → Heap HostSpec → Option ℕ × Heap HostSpec
copy_spec specs hosts = copy_slice zero_host specs hosts

-- `DeepCopyInto` of F5IPAMStatus.
abbrev pub copy_status : Option ℕ → Heap IpSpec → Option ℕ × Heap IpSpec
copy_status status entries = copy_slice zero_entry status entries

-- `DeepCopyInto` of F5IPAM: the fields copied, then those of Spec and of Status.
unfoldable pub deep_copy_into : Resource → Memory → Resource × Memory
unfolding copy_slice
deep_copy_into r m =
    let (specs, hosts) = copy_spec r.host_specs m.hosts in
    let (status, entries) = copy_status r.ip_status m.entries in
    (
      record r { host_specs = specs; ip_status = status },
      record m { hosts = hosts; entries = entries },
    )

-- `DeepCopy` of F5IPAM, into a new object.
unfoldable pub deep_copy : Option ℕ → Memory → Option ℕ × Memory
unfolding deep_copy_into
deep_copy none m = (none, m)
deep_copy (some p) m =
    let (copy, after) = deep_copy_into (get_or m.resources p nil_resource) m in
    (some (length m.resources), record after { resources = m.resources ++ copy ∷ [] })

-- `DeepCopy` of HostSpec.
abbrev pub copy_host : Option ℕ → Heap HostSpec → Option ℕ × Heap HostSpec
copy_host = copy_cell zero_host

-- `DeepCopy` of IPSpec.
abbrev pub copy_entry : Option ℕ → Heap IpSpec → Option ℕ × Heap IpSpec
copy_entry = copy_cell zero_entry

-- The loop of `DeepCopyInto` of F5IPAMList over its items, which are values and no pointers.
unfoldable pub copy_items : List Resource → Memory → List Resource × Memory
unfolding deep_copy_into
copy_items [] m = ([], m)
copy_items (r ∷ rs) m =
    let (copy, m1) = deep_copy_into r m in
    let (copies, m2) = copy_items rs m1 in (copy ∷ copies, m2)

-- `DeepCopyInto` of F5IPAMList; `none` is the nil slice of items.
unfoldable pub list_copy_into : Option (List Resource) → Memory → Option (List Resource) × Memory
unfolding copy_items
list_copy_into none m = (none, m)
list_copy_into (some rs) m = let (copies, after) = copy_items rs m in (some copies, after)

-- `DeepCopy` of F5IPAMList, by its items; the outer `none` is nil.
unfoldable pub list_copy :
    Option (Option (List Resource)) → Memory → Option (Option (List Resource)) × Memory
unfolding list_copy_into
list_copy none m = (none, m)
list_copy (some items) m = let (copies, after) = list_copy_into items m in (some copies, after)

-- `DeepCopy` of F5IPAMSpec and of F5IPAMStatus, by the slice that each holds.
unfoldable pub spec_deep_copy :
    Option (Option ℕ) → Heap HostSpec → Option (Option ℕ) × Heap HostSpec
unfolding copy_slice
spec_deep_copy none hosts = (none, hosts)
spec_deep_copy (some specs) hosts = let (copy, after) = copy_spec specs hosts in (some copy, after)

unfoldable pub status_deep_copy : Option (Option ℕ) → Heap IpSpec → Option (Option ℕ) × Heap IpSpec
unfolding copy_slice
status_deep_copy none entries = (none, entries)
status_deep_copy (some status) entries =
    let (copy, after) = copy_status status entries in (some copy, after)

-- A runtime.Object: nil, or a pointer to a resource or a list.
pub data Object : Type 0 where
  no_object : Object
  resource_at : ℕ → Object
  list_of : Option (List Resource) → Object

-- `DeepCopyObject` of F5IPAM and of F5IPAMList: a nil pointer gives the nil interface.
abbrev resource_object : Option ℕ → Object
resource_object none = no_object
resource_object (some p) = resource_at p

abbrev list_object : Option (Option (List Resource)) → Object
list_object none = no_object
list_object (some items) = list_of items

unfoldable pub deep_copy_object : Option ℕ → Memory → Object × Memory
unfolding deep_copy
deep_copy_object p m = let (copy, after) = deep_copy p m in (resource_object copy, after)

unfoldable pub list_copy_object : Option (Option (List Resource)) → Memory → Object × Memory
unfolding list_copy
list_copy_object items m = let (copies, after) = list_copy items m in (list_object copies, after)

-- The resource as its reader sees it, every pointer followed.
pub record View : Type 0 where
  pub name : Text
  pub namespace : Text
  pub host_specs : Option (List (Option HostSpec))
  pub ip_status : Option (List (Option IpSpec))

abbrev pub view : Resource → Memory → View
view r m = record {
  name = r.name;
  namespace = r.namespace;
  host_specs = read_slice zero_host r.host_specs m.hosts;
  ip_status = read_slice zero_entry r.ip_status m.entries;
}
