-- ===== src/Compiler/Reads/Tokens.antt =====
-- What check, drop and CHKOP do on tokens that are known.
use Prim.Native.String.{String}
use move.Base.{ℕ, ◌≡◌, refl, true, false, Option, some, List, [], ◌∷◌, ◌==◌}
use move.Value.{Value, same}
use move.Heap.{ok, Heap}
use move.Symbols.{newsym}
use move.Text.{codes}
use move.Scanner.{scan, ident}
use move.Scanner.Stream.{ScanInst}
use move.Compiler.Code.{ParseInst, Code, done, pure, lift, modify, ◌>>=◌, ◌>>◌}
use move.Compiler.Tokens.{
  Limits, get_inst, with_inst, yylval, scan_token, fetch, check, drop, chkop, chkerr,
}
use move.Compiler.Primary.{accept, expect}
use move.Compiler.Reads.{
  Token, Scans, reads, Look, ahead, peeked, closed, Sees, emit, after, Reads, Reads-bind,
  Reads-then, Reads-pure,
}

-- The token `t` is the first of `l`, with `ts` behind it.
pub data Next (t : Token) (ts : List Token) : Look → Type 0 where
  later : Next t ts (ahead (t ∷ ts))
  now : Next t ts (peeked t ts)

fetched : ℕ → ScanInst → ParseInst → ParseInst
fetched token si' p = record p { scaninst = si'; scan_result = token; need_scan = false }

module _ (w : Limits) {h : Heap} {ts : List Token} {token : ℕ} {v : Option Value} where
  Reads-check_peeked :
      (class : ℕ)
      → Reads w.rounds h
          (peeked (token, v) ts)
          (peeked (token, v) ts)
          (check w class)
          (class == token)
          []
  unfolding check get_inst ◌>>=◌ ◌>>◌ pure emit
  Reads-check_peeked class = record {
    reading = λ c sees.
        let (need, is, value, scans) = sees.tokens in
        (c.parseinst, sees, rw (sees.brace, need, is) refl);
  }

  check-scan :
      (class : ℕ) (c : Code) (si' : ScanInst)
      → Sees w.rounds h (ahead ((token, v) ∷ ts)) c.parseinst
      → scan w.rounds c.parseinst.scaninst h ≡ ok (token, si') h
      → check w class c h
        ≡ ok (done (class == token) (record c { parseinst = fetched token si' c.parseinst })) h
  unfolding check get_inst with_inst modify fetch scan_token lift ◌>>=◌ ◌>>◌ pure fetched
  check-scan class c si' sees e = rw (sees.brace, sees.tokens.0, sees.none_waits, e) refl

  Reads-check_ahead :
      (class : ℕ)
      → Reads w.rounds h
          (ahead ((token, v) ∷ ts))
          (peeked (token, v) ts)
          (check w class)
          (class == token)
          []
  unfolding emit fetched
  Reads-check_ahead class = record { reading = λ c sees. scanned class c sees (sees.tokens.1) }
    where
      scanned :
          (class : ℕ) (c : Code)
          → Sees w.rounds h (ahead ((token, v) ∷ ts)) c.parseinst
          → Scans w.rounds h ((token, v) ∷ ts) c.parseinst.scaninst
          → (p : ParseInst) × Sees w.rounds h (peeked (token, v) ts) p
            × (check w class c h ≡ ok (done (class == token) (after [] p c)) h)
      scanned class c sees (reads {si' = si'} e value scans) = (
        fetched token si' c.parseinst,
        record {
          brace = sees.brace;
          none_waits = sees.none_waits;
          tokens = (refl, refl, value, scans);
        },
        check-scan class c si' sees e,
      )

  pub Reads-check :
      {l : Look} (class : ℕ)
      → Next (token, v) ts l
      → Reads w.rounds h l (peeked (token, v) ts) (check w class) (class == token) []
  Reads-check class later = Reads-check_ahead class
  Reads-check class now = Reads-check_peeked class

  pub Reads-drop :
      (token == b'}') ≡ false → Reads w.rounds h (peeked (token, v) ts) (ahead ts) (drop w) tt []
  unfolding drop get_inst with_inst modify ◌>>=◌ ◌>>◌ pure emit
  Reads-drop open_ended = record {
    reading = λ c sees.
        let (need, is, value, scans) = sees.tokens in
        (
          record c.parseinst {
            was_close_brace = c.parseinst.scan_result == b'}';
            need_scan = true;
          },
          record { brace = rw is open_ended; none_waits = sees.none_waits; tokens = (refl, scans) },
          rw need refl,
        );
  }

  -- Behind a closing brace the flag is set.
  pub Reads-drop_brace :
      (token == b'}') ≡ true → Reads w.rounds h (peeked (token, v) ts) (closed ts) (drop w) tt []
  unfolding drop get_inst with_inst modify ◌>>=◌ ◌>>◌ pure emit
  Reads-drop_brace closing = record {
    reading = λ c sees.
        let (need, is, value, scans) = sees.tokens in
        (
          record c.parseinst {
            was_close_brace = c.parseinst.scan_result == b'}';
            need_scan = true;
          },
          record { brace = rw is closing; none_waits = sees.none_waits; tokens = (refl, scans) },
          rw need refl,
        );
  }

module _ {rounds : ℕ} {h : Heap} {ts : List Token} {token : ℕ} {v : Value} where
  pub Reads-yylval :
      Reads rounds h (peeked (token, some v) ts) (peeked (token, some v) ts) yylval v []
  unfolding yylval pure emit
  Reads-yylval = record {
    reading =
        λ c sees. let (need, is, value, scans) = sees.tokens in (c.parseinst, sees, rw value refl);
  }

module _ (w : Limits) {h : Heap} {ts : List Token} {t : Token} {l : Look} where
  -- A token that is not looked for stays.
  pub Reads-accept_no :
      (class : ℕ)
      → Next t ts l
      → (class == t.0) ≡ false
      → Reads w.rounds h l (peeked t ts) (accept w class) false []
  unfolding accept
  Reads-accept_no class next other =
      Reads-bind _ (Reads-check w class next) (rw other (Reads-pure false))

module _ (w : Limits) {h : Heap} {ts : List Token} {t : Token} {l : Look} where
  -- A token that is looked for is dropped.
  pub Reads-accept :
      (class : ℕ)
      → Next t ts l
      → (class == t.0) ≡ true
      → (t.0 == b'}') ≡ false
      → Reads w.rounds h l (ahead ts) (accept w class) true []
  unfolding accept
  Reads-accept class next here open_ended =
      Reads-bind _ (Reads-check w class next)
        (rw here (Reads-then (Reads-drop w open_ended) (Reads-pure true)))

  pub Reads-accept_brace :
      Next t ts l
      → (b'}' == t.0) ≡ true
      → (t.0 == b'}') ≡ true
      → Reads w.rounds h l (closed ts) (accept w b'}') true []
  unfolding accept
  Reads-accept_brace next here closing =
      Reads-bind _ (Reads-check w b'}' next)
        (rw here (Reads-then (Reads-drop_brace w closing) (Reads-pure true)))

  pub Reads-expect :
      (class : ℕ) (msg : String)
      → Next t ts l
      → (class == t.0) ≡ true
      → (t.0 == b'}') ≡ false
      → Reads w.rounds h l (ahead ts) (expect w class msg) tt []
  unfolding expect chkerr
  Reads-expect class msg next here open_ended =
      Reads-then (Reads-bind {ys = []} _ (Reads-check w class next) (rw here (Reads-pure tt)))
        (Reads-drop w {v = t.1} open_ended)

Reads-newsym :
    {rounds : ℕ} {h : Heap} {k : Look} (opstr : String) (op : Value)
    → newsym (codes opstr) h ≡ ok op h
    → Reads rounds h k k (lift (newsym (codes opstr))) op []
unfolding lift emit
Reads-newsym opstr op known = record { reading = λ c sees. (c.parseinst, sees, rw known refl) }

module _ (w : Limits) {h : Heap} {ts : List Token} {l : Look} (opstr : String) (op : Value)
    (known : newsym (codes opstr) h ≡ ok op h) where
  pub Reads-chkop-ident :
      (v : Value)
      → Next (ident, some v) ts l
      → Reads w.rounds h l (peeked (ident, some v) ts) (chkop w opstr) (same v op) []
  unfolding chkop
  Reads-chkop-ident v next =
      Reads-bind _ (Reads-check w ident next)
        (Reads-bind _ Reads-yylval (Reads-bind _ (Reads-newsym opstr op known) (Reads-pure _)))

module _ (w : Limits) {h : Heap} {ts : List Token} {l : Look} (opstr : String) where
  pub Reads-chkop_no :
      (t : Token)
      → (ident == t.0) ≡ false
      → Next t ts l
      → Reads w.rounds h l (peeked t ts) (chkop w opstr) false []
  unfolding chkop
  Reads-chkop_no t other next =
      Reads-bind _ (Reads-check w ident next) (rw other (Reads-pure false))
