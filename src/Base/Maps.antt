-- ===== src/Base/Maps.antt =====
-- Go maps with texts as keys, as association lists in which a key stands once.
use mathlib.Core.Path.{◌≡◌, refl, sym, ap, subst, ◌∙◌}
use mathlib.Core.Logic.{◌≢◌, inl, inr}
use mathlib.Core.Option.{Option, none, some}
use mathlib.Core.List.{List, [], ◌∷◌, ◌++◌}
use native.Mathlib.Omega.{arith}
use f5_ipam_controller_base.Base.Tests.{if◌then◌else◌, Bool-cases}
use f5_ipam_controller_base.Base.Lists.{In}
use f5_ipam_controller_base.Base.Text.{Text, text_eq, text_eq_iff}

abbrev pub Map : Type 0 → Type 0
Map A = List (Text × A)

module _ {A : Type 0} where
  -- `m[key]`, with `none` for a missing key.
  unfoldable pub lookup : Text → Map A → Option A
  lookup key [] = none
  lookup key ((k, v) ∷ m) = if text_eq k key then some v else lookup key m

  -- `m[key] = v`.
  unfoldable pub put : Text → A → Map A → Map A
  put key v [] = (key, v) ∷ []
  put key v ((k, w) ∷ m) = if text_eq k key then (key, v) ∷ m else (k, w) ∷ put key v m

  -- No entry has the key.
  abbrev pub Lacks : Text → Map A → Type 0
  Lacks key [] = Unit
  Lacks key ((k, v) ∷ m) = (k ≢ key) × Lacks key m

  -- No two entries have one key.
  abbrev pub DistinctKeys : Map A → Type 0
  DistinctKeys [] = Unit
  DistinctKeys ((k, v) ∷ m) = Lacks k m × DistinctKeys m

  pub lookup-put :
      (key other : Text) (v : A) (m : Map A)
      → lookup other (put key v m) ≡ (if text_eq key other then some v else lookup other m)
  unfolding lookup put
  lookup-put key other v [] = refl
  lookup-put key other v ((k, w) ∷ m) = ground (
    arith,
    lookup-put key other v m,
    text_eq_iff k key,
    text_eq_iff k other,
    text_eq_iff key other,
  )

  Lacks-put :
      (key other : Text) (v : A) (m : Map A)
      → key ≢ other
      → Lacks other m
      → Lacks other (put key v m)
  unfolding put
  Lacks-put key other v [] n h = (n, tt)
  Lacks-put key other v ((k, w) ∷ m) n h = elim (Bool-cases (text_eq k key)) [
    | inl same ↦ rw same (n, h.1)
    | inr differ ↦ rw differ (h.0, Lacks-put key other v m n h.1)
  ]

  pub DistinctKeys-put :
      (key : Text) (v : A) (m : Map A) → DistinctKeys m → DistinctKeys (put key v m)
  unfolding put
  DistinctKeys-put key v [] d = (tt, tt)
  DistinctKeys-put key v ((k, w) ∷ m) d = elim (Bool-cases (text_eq k key)) [
    | inl same ↦ rw same (subst (λ x. Lacks x m) ((text_eq_iff k key).0 same) d.0, d.1)
    | inr differ ↦
        rw differ (
          Lacks-put key k v m (ground (arith, text_eq_iff k key)) d.0,
          DistinctKeys-put key v m d.1,
        )
  ]

  Lacks-In : (key other : Text) (v : A) (m : Map A) → Lacks other m → In (key, v) m → key ≢ other
  Lacks-In key other v [] h i = elim i [ ]
  Lacks-In key other v ((k, w) ∷ m) h (inl e) =
      λ same. h.0 (sym (ap (λ (x : Text × A). x.0) e) ∙ same)
  Lacks-In key other v ((k, w) ∷ m) h (inr i) = Lacks-In key other v m h.1 i

  pub In-lookup :
      (key : Text) (v : A) (m : Map A) → DistinctKeys m → In (key, v) m → lookup key m ≡ some v
  unfolding lookup
  In-lookup key v [] d i = elim i [ ]
  In-lookup key v ((k, w) ∷ m) d (inl e) =
      ground (arith, ap (λ (x : Text × A). x.0) e, ap (λ (x : Text × A). x.1) e, text_eq_iff k key)
  In-lookup key v ((k, w) ∷ m) d (inr i) =
      ground (arith, Lacks-In key k v m d.0 i, In-lookup key v m d.1 i, text_eq_iff k key)

  pub lookup-In : (key : Text) (v : A) (m : Map A) → lookup key m ≡ some v → In (key, v) m
  unfolding lookup
  lookup-In key v [] h = cc
  lookup-In key v ((k, w) ∷ m) h = elim (Bool-cases (text_eq k key)) [
    | inl same ↦ inl (ground (arith, text_eq_iff k key))
    | inr differ ↦ inr (lookup-In key v m (ground arith))
  ]

  Lacks-append :
      (kind k : Text) (v : A) (m : Map A) → Lacks kind m → k ≢ kind → Lacks kind (m ++ (k, v) ∷ [])
  Lacks-append kind k v [] h n = (n, tt)
  Lacks-append kind k v (x ∷ m) h n = (h.0, Lacks-append kind k v m h.1 n)

  pub DistinctKeys-append :
      (k : Text) (v : A) (m : Map A) → DistinctKeys m → Lacks k m → DistinctKeys (m ++ (k, v) ∷ [])
  DistinctKeys-append k v [] d h = (tt, tt)
  DistinctKeys-append k v ((l, w) ∷ m) d h =
      (Lacks-append l k v m d.0 (λ same. h.0 (sym same)), DistinctKeys-append k v m d.1 h.1)
