-- ===== src/Factory/Sync.antt =====
-- For which types WaitForCacheSync answers.
use f5_ipam_controller_base.Base.{
  ◌⊎◌, ◌≡◌, refl, sym, ap, ◌∙◌, Bool, true, false, Option, some, none, List, [], ◌∷◌, In, All,
  arith, Option-cases, Bool-cases, inl, inr, if◌then◌else◌, any,
}
use f5_ipam_controller_base.Base.Text.{Text, text_eq, text_eq_iff, text_eq-false}
use f5_ipam_controller_base.Base.Maps.{
  Map, DistinctKeys, lookup, put, lookup-put, DistinctKeys-put, In-lookup, lookup-In,
}
use f5_ipam_controller_base.Factory.{
  Factory, is_started, started_of, sync_each, wait_for_cache_sync,
}
use f5_ipam_controller_base.Factory.Once.{IsRange}

-- The entries are entries of the map.
abbrev Entries : {A : Type 0} → Map A → List (Text × A) → Type 0
Entries {A} m = All (λ (x : Text × A). lookup x.0 m ≡ some x.1)

abbrev has_key : {A : Type 0} → Text → List (Text × A) → Bool
has_key {A} kind = any (λ (x : Text × A). text_eq x.0 kind)

abbrev pub map_option : {A B : Type 0} → (A → B) → Option A → Option B
map_option f none = none
map_option f (some a) = some (f a)

module _ {A : Type 0} where
  all-Entries :
      (m : Map A) (l : List (Text × A))
      → DistinctKeys m
      → ((x : Text × A) → In x l → In x m)
      → Entries m l
  all-Entries m [] d h = tt
  all-Entries m (x ∷ l) d h =
      (In-lookup x.0 x.1 m d (h x (inl refl)), all-Entries m l d (λ y i. h y (inr i)))

  In-has_key : (kind : Text) (v : A) (l : List (Text × A)) → In (kind, v) l → has_key kind l ≡ true
  In-has_key kind v [] h = elim h [ ]
  In-has_key kind v ((k, w) ∷ l) (inl e) =
      ground (arith, ap (λ (x : Text × A). x.0) e, text_eq_iff k kind)
  In-has_key kind v ((k, w) ∷ l) (inr h) = ground (arith, In-has_key kind v l h)

  absent_key :
      (kind : Text) (m : Map A) (l : List (Text × A))
      → Entries m l
      → lookup kind m ≡ none
      → has_key kind l ≡ false
  absent_key kind m [] h n = refl
  absent_key kind m ((k, v) ∷ l) (e, h) n =
      ground (arith, text_eq_iff k kind, e, absent_key kind m l h n)

  -- Whether the range of a map has a key.
  ranged_key :
      (kind : Text) (m : Map A) (iterate : Map A → Map A)
      → DistinctKeys m
      → IsRange iterate
      → ((v : A) × (lookup kind m ≡ some v) × (has_key kind (iterate m) ≡ true))
        ⊎ ((lookup kind m ≡ none) × (has_key kind (iterate m) ≡ false))
  ranged_key kind m iterate d r = elim (Option-cases (lookup kind m)) [
    | inl missing ↦ inr (
      missing,
      absent_key kind m (iterate m) (all-Entries m (iterate m) d (λ x i. (r x m).0 i)) missing,
    )
    | inr (v, there) ↦
        inl (v, there, In-has_key kind v (iterate m) ((r (kind, v) m).1 (lookup-In kind v m there)))
  ]

  sync_each-lookup :
      (synced : A → Bool) (kind : Text) (v : A) (m : Map A) (l : List (Text × A)) (res : Map Bool)
      → Entries m l
      → lookup kind m ≡ some v
      → lookup kind (sync_each synced l res)
        ≡ (if has_key kind l then some (synced v) else lookup kind res)
  unfolding sync_each
  sync_each-lookup synced kind v m [] res h e = refl
  sync_each-lookup synced kind v m ((k, w) ∷ l) res (e', h) e =
      sync_each-lookup synced kind v m l (put k (synced w) res) h e
      ∙ ground (arith, lookup-put k kind (synced w) res, text_eq_iff k kind, e', e)

  sync_each-absent :
      (synced : A → Bool) (kind : Text) (l : List (Text × A)) (res : Map Bool)
      → has_key kind l ≡ false
      → lookup kind (sync_each synced l res) ≡ lookup kind res
  unfolding sync_each
  sync_each-absent synced kind [] res h = refl
  sync_each-absent synced kind ((k, w) ∷ l) res h =
      sync_each-absent synced kind l (put k (synced w) res) (ground arith)
      ∙ lookup-put k kind (synced w) res
      ∙ ground arith

  -- The answer for one type, where the started informers are the map `m`.
  answer_for :
      (synced : A → Bool) (kind : Text) (m : Map A) (iterate : Map A → Map A)
      → DistinctKeys m
      → IsRange iterate
      → lookup kind (sync_each synced (iterate m) []) ≡ map_option synced (lookup kind m)
  unfolding lookup
  answer_for synced kind m iterate d r = elim (ranged_key kind m iterate d r) [
    | inl (v, there, key) ↦
        sync_each-lookup synced kind v m (iterate m) []
          (all-Entries m (iterate m) d (λ x i. (r x m).0 i)) there
        ∙ rw (key, there) refl
    | inr (missing, key) ↦ sync_each-absent synced kind (iterate m) [] key ∙ rw missing refl
  ]

module _ {C I D F : Type 0} where
  other_kind :
      (k kind : Text) (f : Factory C I D F)
      → is_started k f ≡ true
      → is_started kind f ≡ false
      → text_eq k kind ≡ false
  other_kind k kind f s n =
      text_eq-false k kind (λ same. cc (sym s ∙ ap (λ x. is_started x f) same ∙ n))

  idle_kind :
      (k kind : Text) (f : Factory C I D F)
      → is_started k f ≡ false
      → is_started kind f ≡ true
      → text_eq k kind ≡ false
  idle_kind k kind f n s =
      text_eq-false k kind (λ same. cc (sym s ∙ sym (ap (λ x. is_started x f) same) ∙ n))

  started_of-DistinctKeys :
      (l : List (Text × I)) (f : Factory C I D F) (found : Map I)
      → DistinctKeys found
      → DistinctKeys (started_of l f found)
  unfolding started_of
  started_of-DistinctKeys [] f found d = d
  started_of-DistinctKeys ((k, i) ∷ l) f found d = elim (Bool-cases (is_started k f)) [
    | inl s ↦ rw s (started_of-DistinctKeys l f (put k i found) (DistinctKeys-put k i found d))
    | inr n ↦ rw n (started_of-DistinctKeys l f found d)
  ]

  started_of-idle :
      (kind : Text) (l : List (Text × I)) (f : Factory C I D F) (found : Map I)
      → is_started kind f ≡ false
      → lookup kind (started_of l f found) ≡ lookup kind found
  unfolding started_of
  started_of-idle kind [] f found n = refl
  started_of-idle kind ((k, i) ∷ l) f found n = elim (Bool-cases (is_started k f)) [
    | inl s ↦ rw s (
        started_of-idle kind l f (put k i found) n
        ∙ lookup-put k kind i found
        ∙ ground (arith, other_kind k kind f s n))
    | inr m ↦ rw m (started_of-idle kind l f found n)
  ]

  started_of-absent :
      (kind : Text) (l : List (Text × I)) (f : Factory C I D F) (found : Map I)
      → has_key kind l ≡ false
      → lookup kind (started_of l f found) ≡ lookup kind found
  unfolding started_of
  started_of-absent kind [] f found h = refl
  started_of-absent kind ((k, i) ∷ l) f found h = elim (Bool-cases (is_started k f)) [
    | inl s ↦ rw s (
        started_of-absent kind l f (put k i found) (ground arith)
        ∙ lookup-put k kind i found
        ∙ ground arith)
    | inr m ↦ rw m (started_of-absent kind l f found (ground arith))
  ]

  started_of-lookup :
      (kind : Text) (v : I) (m : Map I) (l : List (Text × I)) (f : Factory C I D F) (found : Map I)
      → Entries m l
      → lookup kind m ≡ some v
      → is_started kind f ≡ true
      → lookup kind (started_of l f found) ≡ (if has_key kind l then some v else lookup kind found)
  unfolding started_of
  started_of-lookup kind v m [] f found h e s = refl
  started_of-lookup kind v m ((k, i) ∷ l) f found (e', h) e s = elim (Bool-cases (is_started k f)) [
    | inl t ↦ rw t (
        started_of-lookup kind v m l f (put k i found) h e s
        ∙ ground (arith, lookup-put k kind i found, text_eq_iff k kind, e', e))
    | inr t ↦
        rw t (started_of-lookup kind v m l f found h e s ∙ ground (arith, idle_kind k kind f t s))
  ]

  started_of-range :
      (kind : Text) (f : Factory C I D F) (iterate : Map I → Map I)
      → DistinctKeys f.informers
      → IsRange iterate
      → lookup kind (started_of (iterate f.informers) f [])
        ≡ (if is_started kind f then lookup kind f.informers else none)
  unfolding lookup
  started_of-range kind f iterate d r = elim (Bool-cases (is_started kind f)) [
    | inr n ↦ rw n (started_of-idle kind (iterate f.informers) f [] n)
    | inl s ↦ rw s (elim (ranged_key kind f.informers iterate d r) [
      | inl (v, there, key) ↦
          started_of-lookup kind v f.informers (iterate f.informers) f []
            (all-Entries f.informers (iterate f.informers) d (λ x i. (r x f.informers).0 i)) there s
          ∙ rw (key, there) refl
      | inr (missing, key) ↦ started_of-absent kind (iterate f.informers) f [] key ∙ rw missing refl
    ])
  ]

  -- In whatever orders the two maps are ranged over: WaitForCacheSync of a factory whose informers have
  -- one entry for each type answers for exactly the types whose informers were started, with
  -- what cache.WaitForCacheSync says of the informer.
  pub wait_for_cache_sync-lookup :
      (iterate iterate_started : Map I → Map I) (synced : I → Bool) (f : Factory C I D F)
      (kind : Text)
      → DistinctKeys f.informers
      → IsRange iterate
      → IsRange iterate_started
      → lookup kind (wait_for_cache_sync iterate iterate_started synced f)
        ≡ (if is_started kind f then map_option synced (lookup kind f.informers) else none)
  unfolding wait_for_cache_sync
  wait_for_cache_sync-lookup iterate iterate_started synced f kind d r r' =
      answer_for synced kind (started_of (iterate f.informers) f []) iterate_started
        (started_of-DistinctKeys (iterate f.informers) f [] tt) r'
      ∙ ap (map_option synced) (started_of-range kind f iterate d r)
      ∙ ground arith
