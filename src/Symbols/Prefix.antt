-- ===== src/Symbols/Prefix.antt =====
-- newsym compares only as many bytes as the stored name has.
use move.Base.{ℕ, ◌%◌, ◌≡◌, refl, Bool, true, some, List, [], ◌∷◌, ◌++◌, get_elem?, arith, ap, ◌∙◌}
use move.Value.{Value, ref, bvector, ovector, vector, t_symbol, num_mod}
use move.Heap.{Heap, ok, at, body_of}
use move.Heap.Laws.{at-ovector, at-vector}
use move.Symbols.{hash_str, strncmp_eq, sym_loop, bytes_of, newsym, symtab_size}

-- At `p` there is a symbol whose name is the bytes `name`.
pub record IsSymbol (h : Heap) (p : ℕ) (name : List ℕ) : Type 0 where
  pub finalize : Bool
  pub string : ℕ
  pub rest : List Value
  pub holds : h.cell p ≡ some (ovector finalize t_symbol (ref string ∷ rest))
  pub bytes : h.cell string ≡ some (bvector name)

strncmp_eq-prefix : (name more : List ℕ) → strncmp_eq name (name ++ more) ≡ true
unfolding strncmp_eq
strncmp_eq-prefix [] more = refl
strncmp_eq-prefix (c ∷ name) more = ground (arith, strncmp_eq-prefix name more)

-- Where the first symbol of the bucket of a name is named by a prefix of it, newsym gives that
-- symbol and makes none: the name and its prefix are one symbol.
pub newsym-prefix :
    {h : Heap} {t p : ℕ} {heads : List Value} (name more : List ℕ)
    → h.symtab ≡ ref t
    → h.cell t ≡ some (vector heads)
    → get_elem? heads (hash_str (name ++ more) % num_mod % symtab_size) ≡ some (ref p)
    → IsSymbol h p name
    → newsym (name ++ more) h ≡ ok (ref p) h
unfolding newsym sym_loop bytes_of body_of
newsym-prefix {h} {t} {p} {heads} name more symtab table first is =
    let b = hash_str (name ++ more) % num_mod % symtab_size in
    let found : at h.symtab b h ≡ ok (ref p) h =
      ap (λ x. at x b h) symtab ∙ at-vector h t b heads table first in
    rw
      (
        found,
        at-ovector h p 0 (ref is.string ∷ is.rest) is.holds refl,
        is.bytes,
        strncmp_eq-prefix name more,
      )
      refl
