-- ===== src/Compiler/Reads.antt =====
-- What the functions of the compiler do on tokens that are known: rules for the parts that they are
-- put together from.
pub mod Tokens
pub mod Operators
pub mod Terms
pub mod Expr
pub mod Patches
pub mod Blocks
use Prim.Native.String.{String}
use move.Base.{
  ℕ, zero, suc, ◌+◌, ◌%◌, ◌<◌, ◌≤◌, ◌≡◌, ◌≢◌, refl, sym, ap, ◌∙◌, inl, inr, Bool, true, false, not,
  ◌&&◌, Option, none, some, List, [], ◌∷◌, ◌++◌, ◌==◌, if◌then◌else◌, arith,
}
use mathlib.Core.List.{append_assoc, append-nil}
use mathlib.Core.Path.{subst}
use move.Value.{Value, same}
use move.Heap.{Run, ok, Heap, Cmd, and_then}
use move.Symbols.{newsym}
use move.Text.{codes}
use move.Buffer.{Buffer, buf_append}
use move.Scanner.{scan, ident}
use move.Scanner.Stream.{ScanInst}
use move.Vm.Bytecode.{Op, opcode}
use move.Compiler.Code.{
  ParseInst, Code, done, Comp, pure, lift, modify, ◌>>=◌, ◌>>◌, gen, gen_op, gen_lit, get_lit,
  literal_in,
}
use move.Compiler.Tokens.{
  Limits, get_inst, with_inst, yylval, scan_token, fetch, check, drop, chkop,
}

-- A token, with what yylval holds behind it where that matters.
abbrev pub Token : Type 0
Token = ℕ × Option Value

abbrev pub Valued : Option Value → Value → Type 0
Valued none x = Unit
Valued (some v) x = x ≡ v

-- The scanner reads the tokens one behind the other, and makes nothing new on the heap.
pub data Scans (rounds : ℕ) (h : Heap) : List Token → ScanInst → Type 0 where
  stops : {si : ScanInst} → Scans rounds h [] si
  reads :
      {token : ℕ} {v : Option Value} {ts : List Token} {si si' : ScanInst}
      → scan rounds si h ≡ ok (token, si') h
      → Valued v si'.yylval
      → Scans rounds h ts si'
      → Scans rounds h ((token, v) ∷ ts) si

-- The tokens in front of the compiler: whether the first of them was looked at, or whether a closing
-- brace was dropped just before.
pub data Look : Type 0 where
  ahead : List Token → Look
  closed : List Token → Look
  peeked : Token → List Token → Look

abbrev pub Seen : ℕ → Heap → Look → ParseInst → Type 0
Seen rounds h (ahead ts) p = (p.need_scan ≡ true) × Scans rounds h ts p.scaninst
Seen rounds h (closed ts) p = (p.need_scan ≡ true) × Scans rounds h ts p.scaninst
Seen rounds h (peeked (token, v) ts) p =
    (p.need_scan ≡ false)
    × (p.scan_result ≡ token)
    × Valued v p.scaninst.yylval
    × Scans rounds h ts p.scaninst

abbrev pub after_brace : Look → Bool
after_brace (closed ts) = true
after_brace _ = false

-- The flag for a closing brace is as it should be, and no token that was put back is waiting.
pub record Sees (rounds : ℕ) (h : Heap) (l : Look) (p : ParseInst) : Type 0 where
  pub brace : p.was_close_brace ≡ after_brace l
  pub none_waits : p.other_scan_result ≡ 0
  pub tokens : Seen rounds h l p

-- What is generated: a byte, or the index of a literal.
pub data Item : Type 0 where
  byte : ℕ → Item
  lit : Value → Item

unfoldable pub emit : List Item → Buffer × List Value → Buffer × List Value
emit [] code = code
emit (byte b ∷ items) (buf, littab) = emit items (buf_append buf (b % 256), littab)
emit (lit v ∷ items) (buf, littab) =
    let (i, tab) = literal_in v littab in emit items (buf_append buf (i % 256 % 256), tab)

pub emit-append :
    (xs ys : List Item) (code : Buffer × List Value) → emit (xs ++ ys) code ≡ emit ys (emit xs code)
unfolding emit
emit-append [] ys code = refl
emit-append (byte b ∷ xs) ys (buf, littab) = emit-append xs ys _
emit-append (lit v ∷ xs) ys (buf, littab) = emit-append xs ys _

-- The code with the items behind it.
abbrev pub after : List Item → ParseInst → Code → Code
after items p c =
    let code = emit items (c.buf, c.littab) in
    record c { buf = code.0; littab = code.1; parseinst = p }

-- In front of the tokens of `l` the function returns `a`, generates the items and leaves the tokens
-- of `l'`.
pub record Reads {A : Type 0} (rounds : ℕ) (h : Heap) (l l' : Look) (m : Comp A) (a : A)
    (items : List Item) : Type 0 where
  pub reading :
      (c : Code)
      → Sees rounds h l c.parseinst
      → (p : ParseInst) × Sees rounds h l' p × (m c h ≡ ok (done a (after items p c)) h)

pub Reads-result :
    {A : Type 0} {rounds : ℕ} {h : Heap} {l l' : Look} {m : Comp A} {a b : A} {xs : List Item}
    → a ≡ b
    → Reads rounds h l l' m a xs
    → Reads rounds h l l' m b xs
Reads-result {rounds = rounds} {h = h} {l = l} {l' = l'} {m = m} {xs = xs} e r =
    subst (λ x. Reads rounds h l l' m x xs) e r

module _ {A B : Type 0} {rounds : ℕ} {h : Heap} {l l' l'' : Look} {a : A} {b : B}
    {xs ys : List Item} where
  joined :
      (m : Comp A) (f : A → Comp B)
      → Reads rounds h l l' m a xs
      → Reads rounds h l' l'' (f a) b ys
      → Reads rounds h l l'' (m >>= f) b (xs ++ ys)
  unfolding ◌>>=◌
  joined m f first next = record {
    reading = λ c sees.
        let (p, sees', e) = first.reading c sees in
        let (q, sees'', e') = next.reading (after xs p c) sees' in
        (
          q,
          sees'',
          rw e (
              e'
              ∙ ap
                  (λ code.
                    ok (done b (record c { buf = code.0; littab = code.1; parseinst = q })) h)
                  (sym (emit-append xs ys (c.buf, c.littab)))),
        );
  }

  pub Reads-bind :
      {m : Comp A} (f : A → Comp B)
      → Reads rounds h l l' m a xs
      → Reads rounds h l' l'' (f a) b ys
      → Reads rounds h l l'' (m >>= f) b (xs ++ ys)
  Reads-bind {m = m} f = joined m f

  pub Reads-then :
      {m : Comp A} {f : Comp B}
      → Reads rounds h l l' m a xs
      → Reads rounds h l' l'' f b ys
      → Reads rounds h l l'' (m >> f) b (xs ++ ys)
  unfolding ◌>>◌
  Reads-then {m = m} {f = f} = joined m (λ a. f)

module _ {rounds : ℕ} {h : Heap} {l : Look} where
  pub Reads-pure : {A : Type 0} (a : A) → Reads rounds h l l (pure a) a []
  unfolding pure emit
  Reads-pure a = record { reading = λ c sees. (c.parseinst, sees, refl) }

  pub Reads-gen : (b : ℕ) → Reads rounds h l l (gen b) tt (byte b ∷ [])
  unfolding gen modify emit
  Reads-gen b = record { reading = λ c sees. (c.parseinst, sees, refl) }

  pub Reads-gen_lit : (v : Value) → Reads rounds h l l (gen_lit v) tt (lit v ∷ [])
  unfolding gen_lit get_lit gen modify emit ◌>>=◌
  Reads-gen_lit v = record { reading = λ c sees. (c.parseinst, sees, refl) }
