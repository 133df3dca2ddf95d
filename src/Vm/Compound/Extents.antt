-- ===== src/Vm/Compound/Extents.antt =====
-- The primitives delete and section of move/PRIM.compound.c on strings.
use move.Base.{
  drop-drop, take-drop, length-take, length-drop, eq_ℤ, ◌⊎◌, inl, inr, ℕ, ◌+◌, ◌≤◌, ◌<◌, ◌≡◌, ◌∙◌,
  refl, sym, true, false, none, some, List, [], ◌∷◌, ◌++◌, ltb, pos, ℤ, length, lt→ltb, ltb→lt,
  Bool-cases, take, drop, arith,
}
use move.Value.{Value, num, ref, bvector, vector}
use move.Heap.{Heap, Cmd, ok, pure, ◌>>=◌, getmem, at, body_of, num_of, length_of, is_bvector}
use move.Symbols.{bytes_of}
use move.Vm.Registers.{Vms, i32_of}
use move.Vm.Primitives.{Primtab}
use move.Vm.Compound.{
  slice, raise_undefined, delete_fun, with_extent, typeerrif, extent_within, section_fun,
}

ltb-above : (a b : ℕ) → ltb a b ≡ false → b ≤ a
ltb-above a b e = ground arith

parted : (i l : ℕ) (bs : List ℕ) → bs ≡ take i bs ++ (slice i l bs ++ drop (i + l) bs)
parted i l bs = sym (rw (sym (drop-drop i l bs), take-drop (drop i bs) l) (take-drop bs i))

i32_of-pos : (n : ℕ) → n < 0x8000_0000 → i32_of (pos n) ≡ pos n
i32_of-pos n lt = ground arith

not_below-ltb : (a b : ℕ) → b ≤ a → ltb a b ≡ false
not_below-ltb a b le = ground arith

-- An argument vector with a string, an index and a length, whose sum is an `int`.
pub record Extent (h : Heap) (a : ℕ) (bs : List ℕ) (i l : ℕ) : Type 0 where
  pub self : Value
  pub x : ℕ
  pub args : h.cell a ≡ some (vector (self ∷ ref x ∷ num (pos i) ∷ num (pos l) ∷ []))
  pub string : h.cell x ≡ some (bvector bs)
  pub fits : i + l < 0x8000_0000

bvector-is_bvector :
    (h : Heap) (x : ℕ) (bs : List ℕ) → h.cell x ≡ some (bvector bs) → is_bvector (ref x) h ≡ true
bvector-is_bvector h x bs e = rw (is_bvector, e) refl

-- A new string as the result, with the registers left as they were.
abbrev pub new_string : Vms → List ℕ → Cmd (Value × Vms)
new_string vms s = do r ← getmem (bvector s); pure (r, vms)

module _ (depth : ℕ) (tab : Primtab) (vms : Vms) (h : Heap) (a : ℕ) (bs : List ℕ) (i l : ℕ) where
  with_extent_lem :
      (body : Value → ℤ → ℤ → Cmd (Value × Vms))
      → (e : Extent h a bs i l)
      → with_extent depth tab (ref a) vms body h ≡ body (ref e.x) (pos i) (pos l) h
  unfolding with_extent typeerrif at body_of num_of
  with_extent_lem body e =
      rw
        (
          e.args,
          e.args,
          e.args,
          bvector-is_bvector h e.x bs e.string,
          i32_of-pos i (omega (arith, e.fits)),
          i32_of-pos l (omega (arith, e.fits)),
        )
        refl

  extent_within-inside :
      (e : Extent h a bs i l)
      → i + l ≤ length bs
      → extent_within depth tab (ref e.x) (pos i) (pos l) h ≡ ok (some (i, l)) h
  unfolding extent_within length_of body_of
  extent_within-inside e inside =
      rw (lt→ltb (i + l) 0x8000_0000 e.fits, e.string, not_below-ltb (length bs) (i + l) inside)
        refl

  extent_within-outside :
      (e : Extent h a bs i l)
      → length bs < i + l
      → extent_within depth tab (ref e.x) (pos i) (pos l) h ≡ ok none h
  unfolding extent_within length_of body_of
  extent_within-outside e outside =
      rw (lt→ltb (i + l) 0x8000_0000 e.fits, e.string, lt→ltb (length bs) (i + l) outside) refl

  section-inside :
      Extent h a bs i l
      → i + l ≤ length bs
      → section_fun depth tab vms (ref a) h ≡ new_string vms (slice i l bs) h
  unfolding section_fun length_of body_of bytes_of getmem eq_ℤ
  section-inside e inside =
      with_extent_lem _ e
      ∙ rw (e.string, extent_within-inside e inside, bvector-is_bvector h e.x bs e.string, e.string)
          refl

  delete-inside :
      Extent h a bs i l
      → i + l ≤ length bs
      → delete_fun depth tab vms (ref a) h ≡ new_string vms (take i bs ++ drop (i + l) bs) h
  unfolding delete_fun body_of bytes_of getmem
  delete-inside e inside =
      with_extent_lem _ e
      ∙ rw (extent_within-inside e inside, bvector-is_bvector h e.x bs e.string, e.string) refl

  section-outside :
      Extent h a bs i l
      → length bs < i + l
      → section_fun depth tab vms (ref a) h ≡ raise_undefined depth tab "range-error" (ref a) vms h
  unfolding section_fun length_of body_of eq_ℤ
  section-outside e outside =
      with_extent_lem _ e ∙ rw (e.string, extent_within-outside e outside) refl

  delete-outside :
      Extent h a bs i l
      → length bs < i + l
      → delete_fun depth tab vms (ref a) h ≡ raise_undefined depth tab "range-error" (ref a) vms h
  unfolding delete_fun
  delete-outside e outside = with_extent_lem _ e ∙ rw (extent_within-outside e outside) refl

  -- On a string with an index and a length whose sum is an `int`, either the sum is at most the
  -- string's length, and then section yields the `l` bytes behind the first `i` and delete the
  -- bytes before and after them, each as a new string, with the registers left as they were; or
  -- the sum is larger, and then both raise range-error on the argument vector.
  pub section-delete :
      Extent h a bs i l
      → ((i + l ≤ length bs)
          × (p s q : List ℕ) × (bs ≡ p ++ (s ++ q))
          × (length p ≡ i)
          × (length s ≡ l)
          × (section_fun depth tab vms (ref a) h ≡ new_string vms s h)
          × (delete_fun depth tab vms (ref a) h ≡ new_string vms (p ++ q) h))
        ⊎ ((length bs < i + l)
            × (section_fun depth tab vms (ref a) h
                ≡ raise_undefined depth tab "range-error" (ref a) vms h)
            × (delete_fun depth tab vms (ref a) h
                ≡ raise_undefined depth tab "range-error" (ref a) vms h))
  section-delete e = elim (Bool-cases (ltb (length bs) (i + l))) [
    | inl over ↦
        let outside = ltb→lt (length bs) (i + l) over in
        inr (outside, section-outside e outside, delete-outside e outside)
    | inr under ↦
        let inside = ltb-above (length bs) (i + l) under in
        inl (
          inside,
          take i bs,
          slice i l bs,
          drop (i + l) bs,
          parted i l bs,
          length-take i bs (omega (arith, inside)),
          length-take l (drop i bs) (length-drop i l bs inside),
          section-inside e inside,
          delete-inside e inside,
        )
  ]
