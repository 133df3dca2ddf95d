-- ===== src/Compiler/Tokens.antt =====
-- The tokens that the compiler looks at, and its syntax errors.
use Prim.Native.String.{String}
use move.Base.{
  ℕ, zero, suc, ◌+◌, ◌/◌, ◌%◌, Bool, true, false, List, [], ◌∷◌, ◌++◌, ltb, ◌==◌, ◌&&◌,
  if◌then◌else◌,
}
use move.Value.{Value, same}
use move.Heap.{Cmd, and_then}
use move.Alloc.{newstring}
use move.Symbols.{newsym}
use move.Text.{codes}
use move.Scanner.{scan, ident}
use move.Vm.Primitives.{Primtab}
use move.Vm.Registers.{Vms}
use move.Vm.Apply.{throw}
use move.Compiler.Code.{ParseInst, Comp, pure, reject, lift, modify, ◌>>=◌, ◌>>◌}

-- The tokens of the keywords in move/scanner.h.
abbrev pub k_define : ℕ
k_define = 258

abbrev pub k_method : ℕ
k_method = 259

abbrev pub k_if : ℕ
k_if = 260

abbrev pub k_else : ℕ
k_else = 261

abbrev pub k_while : ℕ
k_while = 262

abbrev pub k_return : ℕ
k_return = 264

abbrev pub k_function : ℕ
k_function = 265

abbrev pub k_bind_cc : ℕ
k_bind_cc = 266

abbrev pub k_as : ℕ
k_as = 267

abbrev pub k_this : ℕ
k_this = 268

unfoldable pub with_inst : (ParseInst → ParseInst) → Comp (Unit {0})
with_inst f = modify λ c. record c { parseinst = f c.parseinst }

unfoldable pub get_inst : Comp ParseInst
get_inst c = pure c.parseinst c

unfoldable pub stuff_token : ℕ → Comp (Unit {0})
stuff_token class = with_inst λ p. record p {
  other_scan_result = if p.need_scan then p.other_scan_result else p.scan_result;
  scan_result = class;
  need_scan = false;
}

unfoldable pub yylval : Comp Value
yylval c = pure c.parseinst.scaninst.yylval c

-- `sprintf("%d")` of a number that is not negative; `n` rounds for its digits.
unfoldable pub digits : ℕ → ℕ → List ℕ
digits zero k = []
digits (suc n) k =
    let more = digits n (k / 10) in (if ltb k 10 then [] else more) ++ ((b'0' + k % 10) ∷ [])

abbrev pub decimal : ℕ → List ℕ
decimal k = digits (suc k) k

-- What the calls out of the compiler are given: the rounds of a scan, how deep the calls of a raise
-- nest, and the primitives.
pub record Limits : Type 0 where
  pub rounds : ℕ
  pub depth : ℕ
  pub primtab : Primtab

module _ (w : Limits) where
  unfoldable pub scan_token : Comp ℕ
  scan_token = do
    p ← get_inst
    (token, scaninst) ← lift (scan w.rounds p.scaninst)
    with_inst (λ q. record q { scaninst = scaninst; scan_result = token })
    pure token

  -- The `if (p_i->need_scan)` of check and drop.
  unfoldable pub fetch : Comp (Unit {0})
  fetch = do
    p ← get_inst
    if p.other_scan_result == 0
        then (do scan_token; pure tt)
        else with_inst (λ q. record q { scan_result = p.other_scan_result; other_scan_result = 0 })

  unfoldable pub raise_parse_error : Vms → List ℕ → Cmd Vms
  raise_parse_error vms message h =
      and_then (newstring message h) λ string. throw w.depth w.primtab "parse-error" string vms

  unfoldable pub check : ℕ → Comp Bool
  check class = do
    p ← get_inst
    if p.was_close_brace && class == b';'
        then (do with_inst (λ q. record q { was_close_brace = false }); stuff_token b';'; pure true)
        else (do
          if p.need_scan
              then (do fetch; with_inst (λ q. record q { need_scan = false }))
              else pure tt
          q ← get_inst
          pure (class == q.scan_result))

  unfoldable pub drop : Comp (Unit {0})
  drop = do
    p ← get_inst
    if p.need_scan then fetch else pure tt
    with_inst (λ q. record q { was_close_brace = q.scan_result == b'}'; need_scan = true })

  -- vm_raise of a parse-error, and `return 0`.
  unfoldable pub parse_error : {A : Type 0} → List ℕ → Comp A
  parse_error message = do
    p ← get_inst
    vms ← lift (raise_parse_error p.vms message)
    with_inst (λ q. record q { vms = vms })
    reject

  -- ERR
  unfoldable pub err : {A : Type 0} → String → Comp A
  err msg = do
    check 0
    p ← get_inst
    parse_error (
        decimal p.scaninst.linenum
        ++ (codes ": "
            ++ (codes msg ++ (codes " (token = " ++ (decimal p.scan_result ++ codes ")")))))

  -- CHKERR
  unfoldable pub chkerr : ℕ → String → Comp (Unit {0})
  chkerr class msg = do ok ← check class; if ok then pure tt else err msg

  -- CHKOP
  unfoldable pub chkop : String → Comp Bool
  chkop opstr = do
    is_ident ← check ident
    if is_ident
        then (do v ← yylval; op ← lift (newsym (codes opstr)); pure (same v op))
        else pure false
