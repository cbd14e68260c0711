-- ===== src/Fic/Grown.antt =====
-- What a slice reads as in a heap that has grown by further copies.
use mathlib.Core.List.{append-nil, append_assoc}
use f5_ipam_controller_base.Base.{
  ℕ, ◌<◌, ◌≤◌, ◌≡◌, refl, ap, sym, ◌∙◌, Option, none, some, List, [], ◌∷◌, ◌++◌, get_or, length,
  arith, length-append,
}
use f5_ipam_controller_base.Fic.Copy.{Heap, copy_pointers, copy_slice, read_slice}
use f5_ipam_controller_base.Fic.Disjoint.{
  AllInto, IsSlice, IsFresh, AllInto-weaken, AllBehind-weaken, get_or-append_left,
  get_or-append_here, copy_pointers-extends, read_kept,
}

-- A heap with further cells and arrays.
pub record Extends {A : Type 0} (old new : Heap A) : Type 0 where
  pub cells : (more : List A) × (new.cells ≡ old.cells ++ more)
  pub arrays : (more : List (List (Option ℕ))) × (new.arrays ≡ old.arrays ++ more)

module _ {A : Type 0} where
  pub Extends-refl : (h : Heap A) → Extends h h
  Extends-refl h = record {
    cells = ([], sym (append-nil h.cells));
    arrays = ([], sym (append-nil h.arrays));
  }

  pub Extends-trans : {a b c : Heap A} → Extends a b → Extends b c → Extends a c
  Extends-trans {a} x y = record {
    cells = (
      x.cells.0 ++ y.cells.0,
      y.cells.1 ∙ ap (λ l. l ++ y.cells.0) x.cells.1 ∙ append_assoc a.cells x.cells.0 y.cells.0,
    );
    arrays = (
      x.arrays.0 ++ y.arrays.0,
      y.arrays.1
          ∙ ap (λ l. l ++ y.arrays.0) x.arrays.1
          ∙ append_assoc a.arrays x.arrays.0 y.arrays.0,
    );
  }

  longer_cells : {old new : Heap A} → Extends old new → length old.cells ≤ length new.cells
  longer_cells {old} x = omega (arith, ap length x.cells.1, length-append old.cells x.cells.0)

  longer_arrays : {old new : Heap A} → Extends old new → length old.arrays ≤ length new.arrays
  longer_arrays {old} x = omega (arith, ap length x.arrays.1, length-append old.arrays x.arrays.0)

  array_kept :
      {old new : Heap A} (a : ℕ)
      → Extends old new
      → a < length old.arrays
      → get_or new.arrays a [] ≡ get_or old.arrays a []
  array_kept {old} a x inside = rw x.arrays.1 (get_or-append_left [] old.arrays x.arrays.0 a inside)

  pub IsSlice-Extends :
      {old new : Heap A} (s : Option ℕ) → Extends old new → IsSlice s old → IsSlice s new
  IsSlice-Extends none x v = tt
  IsSlice-Extends (some a) x (inside, v) = (
    omega (arith, longer_arrays x),
    rw (array_kept a x inside) (AllInto-weaken _ _ _ (longer_cells x) v),
  )

  pub IsFresh-Extends :
      {old new : Heap A} (oldest : Heap A) (s : Option ℕ)
      → Extends old new
      → IsSlice s old
      → IsFresh oldest s old
      → IsFresh oldest s new
  IsFresh-Extends oldest none x v f = tt
  IsFresh-Extends oldest (some a) x (inside, v) (behind, f) = (behind, rw (array_kept a x inside) f)

  -- What is fresh for a heap is so for what it has grown from.
  pub IsFresh-older :
      {oldest old : Heap A} (s : Option ℕ) (new : Heap A)
      → Extends oldest old
      → IsFresh old s new
      → IsFresh oldest s new
  IsFresh-older none new x f = tt
  IsFresh-older (some a) new x (behind, f) =
      (omega (arith, longer_arrays x), AllBehind-weaken _ _ _ (longer_cells x) f)

  pub read_slice-Extends :
      (d : A) {old new : Heap A} (s : Option ℕ)
      → Extends old new
      → IsSlice s old
      → read_slice d s new ≡ read_slice d s old
  read_slice-Extends d none x v = refl
  read_slice-Extends d {old} (some a) x (inside, v) =
      rw (array_kept a x inside, x.cells.1)
        (ap some (read_kept d (get_or old.arrays a []) old.cells x.cells.0 v))

module _ {A : Type 0} (d : A) where
  AllInto-copy_pointers :
      (ps : List (Option ℕ)) (cells : List A)
      → AllInto (length (copy_pointers d ps cells).1) (copy_pointers d ps cells).0
  unfolding copy_pointers
  AllInto-copy_pointers [] cells = tt
  AllInto-copy_pointers (none ∷ ps) cells = (tt, AllInto-copy_pointers ps cells)
  AllInto-copy_pointers (some p ∷ ps) cells =
      let x = get_or cells p d in
      let (more, e) = copy_pointers-extends d ps (cells ++ x ∷ []) in
      (
        omega (
          arith,
          ap length e,
          length-append (cells ++ x ∷ []) more,
          length-append cells (x ∷ []),
        ),
        AllInto-copy_pointers ps (cells ++ x ∷ []),
      )

  pub copy_slice-Extends : (s : Option ℕ) (heap : Heap A) → Extends heap (copy_slice d s heap).1
  unfolding copy_slice
  copy_slice-Extends none heap = Extends-refl heap
  copy_slice-Extends (some a) heap = record {
    cells = copy_pointers-extends d (get_or heap.arrays a []) heap.cells;
    arrays = (_, refl);
  }

  pub copy_slice-IsSlice :
      (s : Option ℕ) (heap : Heap A) → IsSlice (copy_slice d s heap).0 (copy_slice d s heap).1
  unfolding copy_slice
  copy_slice-IsSlice none heap = tt
  copy_slice-IsSlice (some a) heap =
      let qs = (copy_pointers d (get_or heap.arrays a []) heap.cells).0 in
      (
        omega (arith, length-append heap.arrays (qs ∷ [])),
        rw (get_or-append_here [] heap.arrays qs)
            (AllInto-copy_pointers (get_or heap.arrays a []) heap.cells),
      )
