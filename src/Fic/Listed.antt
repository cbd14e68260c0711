-- ===== src/Fic/Listed.antt =====
-- What the deep copy of a list of resources reads as, and which memory it shares.
use f5_ipam_controller_base.Base.{◌≡◌, refl, some, List, [], ◌∷◌, map, All}
use f5_ipam_controller_base.Fic.Copy.{
  Resource, Memory, View, deep_copy_into, copy_items, list_copy_into, list_copy, view, zero_host,
  zero_entry,
}
use f5_ipam_controller_base.Fic.Disjoint.{
  IsResource, IsDisjoint, read-copy_slice, copy_slice-IsFresh,
}
use f5_ipam_controller_base.Fic.Grown.{
  Extends, Extends-refl, Extends-trans, IsSlice-Extends, IsFresh-Extends, IsFresh-older,
  read_slice-Extends, copy_slice-Extends, copy_slice-IsSlice,
}

-- A memory with further elements and slices.
record Grows (old new : Memory) : Type 0 where
  hosts : Extends old.hosts new.hosts
  entries : Extends old.entries new.entries

Grows-trans : {a b c : Memory} → Grows a b → Grows b c → Grows a c
Grows-trans x y = record {
  hosts = Extends-trans x.hosts y.hosts;
  entries = Extends-trans x.entries y.entries;
}

IsResource-Grows :
    {old new : Memory} (r : Resource) → Grows old new → IsResource r old → IsResource r new
IsResource-Grows r x v = record {
  specs = IsSlice-Extends r.host_specs x.hosts v.specs;
  status = IsSlice-Extends r.ip_status x.entries v.status;
}

AllResources-Grows :
    {old new : Memory} (rs : List Resource)
    → Grows old new
    → All (λ r. IsResource r old) rs
    → All (λ r. IsResource r new) rs
AllResources-Grows [] x v = tt
AllResources-Grows (r ∷ rs) x (v, vs) = (IsResource-Grows r x v, AllResources-Grows rs x vs)

view-Grows :
    {old new : Memory} (r : Resource) → Grows old new → IsResource r old → view r new ≡ view r old
view-Grows r x v = cc (
  read_slice-Extends zero_host r.host_specs x.hosts v.specs,
  read_slice-Extends zero_entry r.ip_status x.entries v.status,
)

abbrev pub views : List Resource → Memory → List View
views rs m = map (λ r. view r m) rs

views-Grows :
    {old new : Memory} (rs : List Resource)
    → Grows old new
    → All (λ r. IsResource r old) rs
    → views rs new ≡ views rs old
views-Grows [] x v = refl
views-Grows (r ∷ rs) x (v, vs) = rw (view-Grows r x v, views-Grows rs x vs) refl

IsDisjoint-older :
    {oldest old : Memory} (new : Memory) (rs : List Resource)
    → Grows oldest old
    → All (λ r. IsDisjoint old r new) rs
    → All (λ r. IsDisjoint oldest r new) rs
IsDisjoint-older new [] x d = tt
IsDisjoint-older new (r ∷ rs) x (d, ds) = (
  record {
    specs = IsFresh-older r.host_specs new.hosts x.hosts d.specs;
    status = IsFresh-older r.ip_status new.entries x.entries d.status;
  },
  IsDisjoint-older new rs x ds,
)

-- One item: the memory grows, the copy reads as the original and is a fresh resource.
record IsCopyOf (r : Resource) (m : Memory) (copy : Resource) (after : Memory) : Type 0 where
  grown : Grows m after
  reads : view copy after ≡ view r m
  there : IsResource copy after
  apart : IsDisjoint m copy after

deep_copy_into-IsCopyOf :
    (r : Resource) (m : Memory)
    → IsResource r m
    → IsCopyOf r m (deep_copy_into r m).0 (deep_copy_into r m).1
unfolding deep_copy_into
deep_copy_into-IsCopyOf r m v = record {
  grown = record {
    hosts = copy_slice-Extends zero_host r.host_specs m.hosts;
    entries = copy_slice-Extends zero_entry r.ip_status m.entries;
  };
  reads = cc (
    read-copy_slice zero_host r.host_specs m.hosts v.specs,
    read-copy_slice zero_entry r.ip_status m.entries v.status,
  );
  there = record {
    specs = copy_slice-IsSlice zero_host r.host_specs m.hosts;
    status = copy_slice-IsSlice zero_entry r.ip_status m.entries;
  };
  apart = record {
    specs = copy_slice-IsFresh zero_host r.host_specs m.hosts;
    status = copy_slice-IsFresh zero_entry r.ip_status m.entries;
  };
}

record AreCopiesOf (rs : List Resource) (m : Memory) (copies : List Resource) (after : Memory)
    : Type 0 where
  grown : Grows m after
  reads : views copies after ≡ views rs m
  apart : All (λ r. IsDisjoint m r after) copies

copy_items-AreCopiesOf :
    (rs : List Resource) (m : Memory)
    → All (λ r. IsResource r m) rs
    → AreCopiesOf rs m (copy_items rs m).0 (copy_items rs m).1
unfolding copy_items
copy_items-AreCopiesOf [] m v = record {
  grown = record { hosts = Extends-refl m.hosts; entries = Extends-refl m.entries };
  reads = refl;
  apart = tt;
}
copy_items-AreCopiesOf (r ∷ rs) m (v, vs) =
    let first = deep_copy_into-IsCopyOf r m v in
    let (copy, m1) = deep_copy_into r m in
    let others = copy_items-AreCopiesOf rs m1 (AllResources-Grows rs first.grown vs) in
    record {
      grown = Grows-trans first.grown others.grown;
      reads =
          rw
            (
              view-Grows copy others.grown first.there,
              first.reads,
              others.reads,
              views-Grows rs first.grown vs,
            )
            refl;
      apart = (
        record {
          specs =
              IsFresh-Extends m.hosts copy.host_specs others.grown.hosts first.there.specs
                first.apart.specs;
          status =
              IsFresh-Extends m.entries copy.ip_status others.grown.entries first.there.status
                first.apart.status;
        },
        IsDisjoint-older (copy_items rs m1).1 (copy_items rs m1).0 first.grown others.apart,
      );
    }

-- The deep copy of a list of resources has items that read as those of the original, in their order,
-- and of which none shares a slice or an element with the memory before; and a resource of that
-- memory reads as it did.
pub list_copy-IsDisjoint :
    (rs : List Resource) (m : Memory) (o : Resource)
    → All (λ r. IsResource r m) rs
    → IsResource o m
    → (copies : List Resource) × (after : Memory) × (list_copy (some (some rs)) m
        ≡ (some (some copies), after))
      × (views copies after ≡ views rs m)
      × All (λ r. IsDisjoint m r after) copies
      × (view o after ≡ view o m)
unfolding list_copy list_copy_into
list_copy-IsDisjoint rs m o v w =
    let done = copy_items-AreCopiesOf rs m v in
    (
      (copy_items rs m).0,
      (copy_items rs m).1,
      refl,
      done.reads,
      done.apart,
      view-Grows o done.grown w,
    )
