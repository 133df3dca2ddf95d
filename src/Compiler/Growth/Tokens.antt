-- ===== src/Compiler/Growth/Tokens.antt =====
-- Tokens and syntax errors leave the code, the scopes and the literals alone.
use Prim.Native.String.{String}
use move.Base.{ℕ, List, ◌==◌, ◌&&◌}
use move.Scanner.{ident}
use move.Compiler.Code.{ParseInst, pure}
use move.Compiler.Growth.Blocks.{◌>>=◌, ◌>>◌}
use move.Compiler.Tokens.{
  Limits, with_inst, get_inst, stuff_token, yylval, scan_token, fetch, check, drop, parse_error,
  err, chkerr, chkop,
}
use move.Compiler.Growth.{Grows, grows-if, grows-pure, grows-lift, grows-reject}
use move.Compiler.Growth.Steps.{grows-inst}

module _ {d : ℕ} {marks : List ℕ} where
  pub grows-with_inst : (f : ParseInst → ParseInst) → Grows d d marks (with_inst f)
  unfolding with_inst
  grows-with_inst f = grows-inst f

  pub grows-get_inst : Grows d d marks get_inst
  unfolding pure get_inst
  grows-get_inst = record { grows = λ k c h. (grows-pure c.parseinst).grows k c h }

  pub grows-yylval : Grows d d marks yylval
  unfolding pure yylval
  grows-yylval = record { grows = λ k c h. (grows-pure c.parseinst.scaninst.yylval).grows k c h }

module _ (w : Limits) {d : ℕ} {marks : List ℕ} where
  grows-scan_token : Grows d d marks (scan_token w)
  unfolding scan_token
  grows-scan_token = do p ← grows-get_inst; r ← grows-lift _; grows-with_inst _; grows-pure _

  grows-fetch : Grows d d marks (fetch w)
  unfolding fetch
  grows-fetch = do
    p ← grows-get_inst
    grows-if (p.other_scan_result == 0) (do grows-scan_token; grows-pure _) (grows-with_inst _)

  pub grows-stuff_token : (class : ℕ) → Grows d d marks (stuff_token class)
  unfolding stuff_token
  grows-stuff_token class = grows-with_inst _

  pub grows-check : (class : ℕ) → Grows d d marks (check w class)
  unfolding check
  grows-check class = do
    p ← grows-get_inst
    grows-if (p.was_close_brace && class == b';')
        (do grows-with_inst _; grows-stuff_token b';'; grows-pure _)
        (do
          grows-if p.need_scan (do grows-fetch; grows-with_inst _) (grows-pure _)
          q ← grows-get_inst
          grows-pure _)

  pub grows-drop : Grows d d marks (drop w)
  unfolding drop
  grows-drop = do
    p ← grows-get_inst
    grows-if p.need_scan grows-fetch (grows-pure _)
    grows-with_inst _

  pub grows-parse_error :
      {A : Type 0} (message : List ℕ) → Grows {A = A} d d marks (parse_error w message)
  unfolding parse_error
  grows-parse_error message = do
    p ← grows-get_inst
    vms ← grows-lift _
    grows-with_inst _
    grows-reject

  pub grows-err : {A : Type 0} (msg : String) → Grows {A = A} d d marks (err w msg)
  unfolding err
  grows-err msg = do grows-check 0; p ← grows-get_inst; grows-parse_error _

  pub grows-chkerr : (class : ℕ) (msg : String) → Grows d d marks (chkerr w class msg)
  unfolding chkerr
  grows-chkerr class msg = do ok ← grows-check class; grows-if ok (grows-pure _) (grows-err msg)

  pub grows-chkop : (opstr : String) → Grows d d marks (chkop w opstr)
  unfolding chkop
  grows-chkop opstr = do
    is_ident ← grows-check ident
    grows-if is_ident (do v ← grows-yylval; op ← grows-lift _; grows-pure _) (grows-pure _)
