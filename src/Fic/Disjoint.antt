-- ===== src/Fic/Disjoint.antt =====
-- What a deep copy reads as, and which memory it shares.
use mathlib.Core.List.{append-nil, append_assoc}
use f5_ipam_controller_base.Base.{
  ℕ, zero, suc, ◌<◌, ◌≤◌, ◌≡◌, refl, ap, sym, ◌∙◌, Option, none, some, List, [], ◌∷◌, ◌++◌, map,
  get_or, length, arith, length-append,
}
use f5_ipam_controller_base.Fic.Copy.{
  Heap, Resource, Memory, copy_pointers, copy_slice, deep_copy_into, deep_copy, read_pointer,
  read_slice, view, zero_host, zero_entry, nil_resource,
}

abbrev pub PointsInto : ℕ → Option ℕ → Type 0
PointsInto n none = Unit
PointsInto n (some p) = p < n

abbrev pub PointsBehind : ℕ → Option ℕ → Type 0
PointsBehind n none = Unit
PointsBehind n (some p) = n ≤ p

abbrev pub AllInto : ℕ → List (Option ℕ) → Type 0
AllInto n [] = Unit
AllInto n (p ∷ ps) = PointsInto n p × AllInto n ps

abbrev pub AllBehind : ℕ → List (Option ℕ) → Type 0
AllBehind n [] = Unit
AllBehind n (p ∷ ps) = PointsBehind n p × AllBehind n ps

module _ {A : Type 0} where
  pub get_or-append_left :
      (d : A) (xs ys : List A) (i : ℕ) → i < length xs → get_or (xs ++ ys) i d ≡ get_or xs i d
  get_or-append_left d [] ys i h = absurd (omega arith)
  get_or-append_left d (x ∷ xs) ys zero h = refl
  get_or-append_left d (x ∷ xs) ys (suc i) h = get_or-append_left d xs ys i (omega arith)

  pub get_or-append_here : (d : A) (xs : List A) (x : A) → get_or (xs ++ x ∷ []) (length xs) d ≡ x
  get_or-append_here d [] x = refl
  get_or-append_here d (y ∷ xs) x = get_or-append_here d xs x

pub AllInto-weaken : (n m : ℕ) (ps : List (Option ℕ)) → n ≤ m → AllInto n ps → AllInto m ps
AllInto-weaken n m [] h v = tt
AllInto-weaken n m (none ∷ ps) h (v, vs) = (tt, AllInto-weaken n m ps h vs)
AllInto-weaken n m (some p ∷ ps) h (v, vs) = (omega arith, AllInto-weaken n m ps h vs)

pub AllBehind-weaken : (n m : ℕ) (ps : List (Option ℕ)) → n ≤ m → AllBehind m ps → AllBehind n ps
AllBehind-weaken n m [] h v = tt
AllBehind-weaken n m (none ∷ ps) h (v, vs) = (tt, AllBehind-weaken n m ps h vs)
AllBehind-weaken n m (some p ∷ ps) h (v, vs) = (omega arith, AllBehind-weaken n m ps h vs)

module _ {A : Type 0} where
  -- A slice in the heap, all of whose pointers lead to cells.
  abbrev pub IsSlice : Option ℕ → Heap A → Type 0
  IsSlice none heap = Unit
  IsSlice (some a) heap =
      (a < length heap.arrays) × AllInto (length heap.cells) (get_or heap.arrays a [])

  -- A slice whose array and whose cells are none of an older heap.
  abbrev pub IsFresh : Heap A → Option ℕ → Heap A → Type 0
  IsFresh old none heap = Unit
  IsFresh old (some a) heap =
      (length old.arrays ≤ a) × AllBehind (length old.cells) (get_or heap.arrays a [])

module _ {A : Type 0} (d : A) where
  -- The copies are appended to the cells.
  pub copy_pointers-extends :
      (ps : List (Option ℕ)) (cells : List A)
      → (more : List A) × ((copy_pointers d ps cells).1 ≡ cells ++ more)
  unfolding copy_pointers
  copy_pointers-extends [] cells = ([], sym (append-nil cells))
  copy_pointers-extends (none ∷ ps) cells = copy_pointers-extends ps cells
  copy_pointers-extends (some p ∷ ps) cells =
      let (more, e) = copy_pointers-extends ps (cells ++ get_or cells p d ∷ []) in
      (get_or cells p d ∷ more, e ∙ append_assoc cells (get_or cells p d ∷ []) more)

  AllBehind-copy_pointers :
      (ps : List (Option ℕ)) (cells : List A)
      → AllBehind (length cells) (copy_pointers d ps cells).0
  unfolding copy_pointers
  AllBehind-copy_pointers [] cells = tt
  AllBehind-copy_pointers (none ∷ ps) cells = (tt, AllBehind-copy_pointers ps cells)
  AllBehind-copy_pointers (some p ∷ ps) cells = (
    omega arith,
    AllBehind-weaken _ _ _ (omega (arith, length-append cells (get_or cells p d ∷ [])))
        (AllBehind-copy_pointers ps (cells ++ get_or cells p d ∷ [])),
  )

  pub read_kept :
      (ps : List (Option ℕ)) (cells more : List A)
      → AllInto (length cells) ps
      → map (read_pointer d (cells ++ more)) ps ≡ map (read_pointer d cells) ps
  read_kept [] cells more v = refl
  read_kept (none ∷ ps) cells more (v, vs) = ap (◌∷◌ none) (read_kept ps cells more vs)
  read_kept (some p ∷ ps) cells more (v, vs) =
      rw (get_or-append_left d cells more p v)
        (ap (◌∷◌ (some (get_or cells p d))) (read_kept ps cells more vs))

  read-copy_pointers :
      (ps : List (Option ℕ)) (cells : List A)
      → AllInto (length cells) ps
      → map (read_pointer d (copy_pointers d ps cells).1) (copy_pointers d ps cells).0
        ≡ map (read_pointer d cells) ps
  unfolding copy_pointers
  read-copy_pointers [] cells v = refl
  read-copy_pointers (none ∷ ps) cells (v, vs) = ap (◌∷◌ none) (read-copy_pointers ps cells vs)
  read-copy_pointers (some p ∷ ps) cells (v, vs) =
      let x = get_or cells p d in
      let (more, e) = copy_pointers-extends ps (cells ++ x ∷ []) in
      let longer = length-append cells (x ∷ []) in
      let first : get_or (copy_pointers d ps (cells ++ x ∷ [])).1 (length cells) d ≡ x = rw e (
        get_or-append_left d (cells ++ x ∷ []) more (length cells) (omega (arith, longer))
        ∙ get_or-append_here d cells x) in
      let rest =
        read-copy_pointers ps (cells ++ x ∷ []) (AllInto-weaken _ _ ps (omega (arith, longer)) vs)
        ∙ read_kept ps cells (x ∷ []) vs in
      rw (first, rest) refl

  pub copy_slice-IsFresh :
      (s : Option ℕ) (heap : Heap A) → IsFresh heap (copy_slice d s heap).0 (copy_slice d s heap).1
  unfolding copy_slice
  copy_slice-IsFresh none heap = tt
  copy_slice-IsFresh (some a) heap = (
    omega arith,
    rw (get_or-append_here [] heap.arrays (copy_pointers d (get_or heap.arrays a []) heap.cells).0)
        (AllBehind-copy_pointers (get_or heap.arrays a []) heap.cells),
  )

  pub read-copy_slice :
      (s : Option ℕ) (heap : Heap A)
      → IsSlice s heap
      → read_slice d (copy_slice d s heap).0 (copy_slice d s heap).1 ≡ read_slice d s heap
  unfolding copy_slice
  read-copy_slice none heap v = refl
  read-copy_slice (some a) heap (inside, v) =
      rw
        (get_or-append_here [] heap.arrays (copy_pointers d (get_or heap.arrays a []) heap.cells).0)
        (ap some (read-copy_pointers (get_or heap.arrays a []) heap.cells v))

  -- What a slice reads is not changed by a copy of another one.
  read_slice-copy_slice :
      (t s : Option ℕ) (heap : Heap A)
      → IsSlice t heap
      → read_slice d t (copy_slice d s heap).1 ≡ read_slice d t heap
  unfolding copy_slice
  read_slice-copy_slice none s heap v = refl
  read_slice-copy_slice (some b) none heap v = refl
  read_slice-copy_slice (some b) (some a) heap (inside, v) =
      let (qs, cells) = copy_pointers d (get_or heap.arrays a []) heap.cells in
      let (more, e) = copy_pointers-extends (get_or heap.arrays a []) heap.cells in
      rw
        (
          get_or-append_left [] heap.arrays
              ((copy_pointers d (get_or heap.arrays a []) heap.cells).0 ∷ []) b inside,
          e,
        )
        (ap some (read_kept (get_or heap.arrays b []) heap.cells more v))

-- A resource of a memory: its slices are in the heap.
pub record IsResource (r : Resource) (m : Memory) : Type 0 where
  pub specs : IsSlice r.host_specs m.hosts
  pub status : IsSlice r.ip_status m.entries

-- A resource that shares no slice and no element of one with an older memory.
pub record IsDisjoint (old : Memory) (r : Resource) (m : Memory) : Type 0 where
  pub specs : IsFresh old.hosts r.host_specs m.hosts
  pub status : IsFresh old.entries r.ip_status m.entries

abbrev pub target : Option ℕ → Memory → Resource
target none m = nil_resource
target (some p) m = get_or m.resources p nil_resource

copied :
    (p : ℕ) (m : Memory)
    → target (deep_copy (some p) m).0 (deep_copy (some p) m).1
      ≡ (deep_copy_into (get_or m.resources p nil_resource) m).0
unfolding deep_copy
copied p m = get_or-append_here nil_resource m.resources _

-- The copy of a resource is a new one, which reads as the original, shares no slice and no element
-- with the memory before, and a resource of that memory reads as it did.
pub deep_copy-IsDisjoint :
    (p : ℕ) (m : Memory) (o : Resource)
    → IsResource (target (some p) m) m
    → IsResource o m
    → ((deep_copy (some p) m).0 ≡ some (length m.resources))
      × (view (target (deep_copy (some p) m).0 (deep_copy (some p) m).1) (deep_copy (some p) m).1
          ≡ view (target (some p) m) m)
      × IsDisjoint m
          (target (deep_copy (some p) m).0 (deep_copy (some p) m).1)
          (deep_copy (some p) m).1
      × (view o (deep_copy (some p) m).1 ≡ view o m)
unfolding deep_copy_into deep_copy
deep_copy-IsDisjoint p m o v w =
    let r = target (some p) m in
    (
      refl,
      rw (copied p m) (
          cc (
            read-copy_slice zero_host r.host_specs m.hosts v.specs,
            read-copy_slice zero_entry r.ip_status m.entries v.status,
          )),
      rw (copied p m) (record {
        specs = copy_slice-IsFresh zero_host r.host_specs m.hosts;
        status = copy_slice-IsFresh zero_entry r.ip_status m.entries;
      }),
      cc (
        read_slice-copy_slice zero_host o.host_specs r.host_specs m.hosts w.specs,
        read_slice-copy_slice zero_entry o.ip_status r.ip_status m.entries w.status,
      ),
    )
