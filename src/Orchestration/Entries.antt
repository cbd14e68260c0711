-- ===== src/Orchestration/Entries.antt =====
-- The status of a resource as a map from a host and a CIDR to an address.
use f5_ipam_controller_base.Base.{
  ◌≡◌, refl, ◌≢◌, inl, inr, Bool, false, ◌&&◌, Option, none, some, List, [], ◌∷◌, ◌++◌, any, arith,
  Bool-cases, Option-cases, if◌then◌else◌,
}
use f5_ipam_controller_base.Base.Text.{Text, text_eq, text_eq_iff}
use f5_ipam_controller_base.Fic.{IpSpec}
use f5_ipam_controller_base.Orchestration.Response.{is_entry, set_entries, add_entry, remove_entry}

-- The address of the first entry of the host and CIDR.
unfoldable pub address_of : Text → Text → List IpSpec → Option Text
address_of host cidr [] = none
address_of host cidr (s ∷ specs) =
    if is_entry host cidr s then some s.ip else address_of host cidr specs

-- No two entries have one host and CIDR.
abbrev pub IsMap : List IpSpec → Type 0
IsMap [] = Unit
IsMap (s ∷ specs) = (address_of s.host s.cidr specs ≡ none) × IsMap specs

abbrev pub same_key : Text → Text → Text → Text → Bool
same_key host cidr h c = text_eq host h && text_eq cidr c

module _ (host cidr ip : Text) where
  address_of-set_entries :
      (h c : Text) (specs : List IpSpec)
      → address_of h c (set_entries host cidr ip specs) ≡ (
          if same_key host cidr h c && any (is_entry host cidr) specs
          then some ip
          else address_of h c specs)
  unfolding address_of set_entries
  address_of-set_entries h c [] = ground arith
  address_of-set_entries h c (s ∷ specs) = ground (
    arith,
    address_of-set_entries h c specs,
    text_eq_iff host h,
    text_eq_iff cidr c,
    text_eq_iff s.host host,
    text_eq_iff s.cidr cidr,
    text_eq_iff s.host h,
    text_eq_iff s.cidr c,
  )

  address_of-append :
      (h c : Text) (specs : List IpSpec)
      → any (is_entry host cidr) specs ≡ false
      → address_of h c (specs ++ record { host = host; cidr = cidr; ip = ip } ∷ [])
        ≡ (if same_key host cidr h c then some ip else address_of h c specs)
  unfolding address_of
  address_of-append h c [] n = ground arith
  address_of-append h c (s ∷ specs) n = ground (
    arith,
    address_of-append h c specs,
    text_eq_iff host h,
    text_eq_iff cidr c,
    text_eq_iff s.host host,
    text_eq_iff s.cidr cidr,
    text_eq_iff s.host h,
    text_eq_iff s.cidr c,
  )

  set_entries_absent :
      (specs : List IpSpec)
      → any (is_entry host cidr) specs ≡ false
      → set_entries host cidr ip specs ≡ specs
  unfolding set_entries
  set_entries_absent [] n = refl
  set_entries_absent (s ∷ specs) n = ground (arith, set_entries_absent specs)

  -- Adding an entry sets the address of its host and CIDR and leaves every other one as it was.
  pub address_of-add_entry :
      (h c : Text) (specs : List IpSpec)
      → address_of h c (add_entry host cidr ip specs)
        ≡ (if same_key host cidr h c then some ip else address_of h c specs)
  unfolding add_entry
  address_of-add_entry h c specs = elim (Bool-cases (any (is_entry host cidr) specs)) [
    | inl there ↦ ground (arith, address_of-set_entries h c specs)
    | inr new ↦ ground (arith, set_entries_absent specs new, address_of-append h c specs new)
  ]

  remove_entry-append :
      (specs : List IpSpec)
      → remove_entry host cidr (specs ++ record { host = host; cidr = cidr; ip = ip } ∷ [])
        ≡ some specs
  unfolding remove_entry
  remove_entry-append [] = ground (arith, text_eq_iff host host, text_eq_iff cidr cidr)
  remove_entry-append (s ∷ specs) = rw (remove_entry-append specs)

  -- An entry that was added for a new host and CIDR can be removed again, which gives the old status.
  pub remove_entry-add_entry :
      (specs : List IpSpec)
      → any (is_entry host cidr) specs ≡ false
      → remove_entry host cidr (add_entry host cidr ip specs) ≡ some specs
  unfolding add_entry
  remove_entry-add_entry specs n = rw (n, set_entries_absent specs n) (remove_entry-append specs)

module _ (host cidr : Text) where
  pub remove_entry_absent :
      (specs : List IpSpec)
      → remove_entry host cidr specs ≡ none
      → address_of host cidr specs ≡ none
  unfolding remove_entry address_of
  remove_entry_absent [] h = refl
  remove_entry_absent (s ∷ specs) h = elim (Option-cases (remove_entry host cidr specs)) [
    | inl e ↦ ground (arith, remove_entry_absent specs e)
    | inr (rest, e) ↦ ground arith
  ]

  remove_entry_there :
      (specs rest : List IpSpec)
      → remove_entry host cidr specs ≡ some rest
      → address_of host cidr specs ≢ none
  unfolding remove_entry address_of
  remove_entry_there [] rest h = cc
  remove_entry_there (s ∷ specs) rest h = elim (Option-cases (remove_entry host cidr specs)) [
    | inl e ↦ ground arith
    | inr (r, e) ↦ ground (arith, remove_entry_there specs r e)
  ]

  -- In a status in which no two entries have one host and CIDR, removing an entry takes its address
  -- away and leaves every other one as it was.
  pub address_of-remove_entry :
      (h c : Text) (specs rest : List IpSpec)
      → IsMap specs
      → remove_entry host cidr specs ≡ some rest
      → address_of h c rest ≡ (if same_key host cidr h c then none else address_of h c specs)
  unfolding remove_entry address_of
  address_of-remove_entry h c [] rest m e = cc
  address_of-remove_entry h c (s ∷ specs) rest m e =
      elim (Option-cases (remove_entry host cidr specs)) [
        | inl missing ↦ ground (
          arith,
          remove_entry_absent specs missing,
          text_eq_iff host h,
          text_eq_iff cidr c,
          text_eq_iff s.host host,
          text_eq_iff s.cidr cidr,
          text_eq_iff s.host h,
          text_eq_iff s.cidr c,
        )
        | inr (r, found) ↦ ground (
          arith,
          remove_entry_there specs r found,
          address_of-remove_entry h c specs r m.1 found,
          text_eq_iff host h,
          text_eq_iff cidr c,
          text_eq_iff s.host host,
          text_eq_iff s.cidr cidr,
          text_eq_iff s.host h,
          text_eq_iff s.cidr c,
        )
      ]
