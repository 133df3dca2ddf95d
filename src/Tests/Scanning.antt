-- ===== src/Tests/Scanning.antt =====
-- The theorems on the scanner at concrete inputs.
use move.Base.{ℕ, ◌≡◌, ◌≢◌, refl, true, none, List, [], arith, pos, neg_ℤ}
use move.Value.{null, mknum}
use move.Heap.{Heap, ok, out_of_fuel, ◌>>=◌}
use move.Alloc.{newstring}
use move.Text.{codes}
use move.Scanner.Stream.{ScanInst}
use move.Scanner.Words.{is_delim}
use move.Scanner.{
  scan, scan_loop, st_start, first_locals, lost_fuel, literal, emit_word, emit_literal,
}
use move.Scanner.Input.{input}
use move.Scanner.Start.{scan-word}
use move.Scanner.Number.{positional}
use move.Scanner.Numeral.{scan-numeral}
use move.Scanner.Text.{scan-text}
use move.Scanner.Comment.{scan-open_comment}
use move.Scanner.Fuel.{scan_loop-ends}

abbrev heap : Heap
heap = record { cell = λ p. none; fresh = 0; all_objects = []; curr_heapsize = 0; symtab = null }

abbrev on_text : List ℕ → ScanInst
on_text s = record { stream = s; cache = none; linenum = 0; yylval = null }

scan-word_example :
    (si' : ScanInst) × (scan 10 (on_text (codes " #a1;")) heap
      ≡ emit_word true (codes "a1") si' heap)
    × (input si' ≡ codes ";")
unfolding is_delim
scan-word_example =
    scan-word (codes " ") (codes "a1") true b';' [] (on_text (codes " #a1;")) 10 heap (refl, tt) tt
      (refl, (refl, tt)) refl refl (omega arith)

scan-numeral_example :
    (si' : ScanInst) × (scan 10 (on_text (codes "\n-0x1F)")) heap
      ≡ ok (literal, record si' { yylval = mknum (neg_ℤ (pos (positional 16 (codes "1F")))) }) heap)
    × (input si' ≡ codes ")")
unfolding positional
scan-numeral_example =
    scan-numeral (codes "\n") (codes "1F") true true b')' [] (on_text (codes "\n-0x1F)")) 10 heap
      (refl, tt) (refl, (refl, tt)) refl (omega arith) refl (omega arith)

scan-text_example :
    (si' : ScanInst) × (scan 20 (on_text (codes "\"a\\\\b\\\"\";")) heap
      ≡ (newstring (codes "a\\b\"") >>= λ string. emit_literal string si') heap)
    × (input si' ≡ codes ";")
scan-text_example =
    scan-text [] (codes "a\\b\"") b';' [] (on_text (codes "\"a\\\\b\\\"\";")) 20 heap tt
      (
        λ e. ground (arith, e),
        (λ e. ground (arith, e), (λ e. ground (arith, e), (λ e. ground (arith, e), tt))),
      )
      (λ e. ground (arith, e)) refl refl (omega arith)

scan-open_comment_example : scan 1000 (on_text (codes "//end")) heap ≡ out_of_fuel
scan-open_comment_example =
    scan-open_comment (codes "end") (on_text (codes "//end")) 1000 heap (refl, (refl, (refl, tt)))
      refl

scan_loop-ends_example :
    (scan_loop 20 st_start first_locals (on_text (codes "// x\n  y\n"))).0 ≢ lost_fuel
scan_loop-ends_example =
    scan_loop-ends 20 st_start first_locals (on_text (codes "// x\n  y\n")) (omega arith) refl
