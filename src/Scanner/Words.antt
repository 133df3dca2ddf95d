-- ===== src/Scanner/Words.antt =====
-- C strings, escapes, keywords and delimiters of move/scanner.c.
use move.Base.{
  ℕ, Bool, true, false, Option, none, some, List, [], ◌∷◌, ◌==◌, ◌&&◌, ◌||◌, if◌then◌else◌,
}
use move.Text.{codes}

-- The C string at the start of the bytes; `none` is a read of memory that was not written.
abbrev pub c_string : List (Option ℕ) → Option (List ℕ)
c_string [] = none
c_string (none ∷ cs) = none
c_string (some c ∷ cs) =
    if c == 0 then some [] else elim (c_string cs) [ none ↦ none | some s ↦ some (c ∷ s) ]

-- What stands for `\c`.
abbrev pub escaped : ℕ → ℕ
escaped c =
    if c == b'r'
    then 13
    else if c == b'n'
    then 10
    else if c == b't'
    then 9
    else if c == b'b'
    then 8
    else if c == b'a'
    then 7
    else if c == b'e'
    then 27
    else c

-- The bytes that the loop writes from `dest` on, the final zero included; it writes behind what it
-- has read.
unfoldable pub compile_string_ext_rep : List (Option ℕ) → List (Option ℕ)
compile_string_ext_rep [] = []
compile_string_ext_rep (none ∷ cs) = []
compile_string_ext_rep (some c ∷ []) = if c == 0 then some 0 ∷ [] else []
compile_string_ext_rep (some c ∷ d ∷ cs) =
    let plain = compile_string_ext_rep (d ∷ cs) in
    let behind = compile_string_ext_rep cs in
    if c == 0
    then some 0 ∷ []
    else if c == b'\\'
    then elim d [ none ↦ [] | some e ↦ some (escaped e) ∷ behind ]
    else some c ∷ plain

unfoldable pub strcmp_eq : List ℕ → List ℕ → Bool
strcmp_eq [] [] = true
strcmp_eq [] (d ∷ ds) = false
strcmp_eq (c ∷ cs) [] = false
strcmp_eq (c ∷ cs) (d ∷ ds) = (c == d) && strcmp_eq cs ds

abbrev pub scan_keywords : List (List ℕ × ℕ)
scan_keywords =
    (codes "define", 258)
    ∷ (codes "method", 259)
    ∷ (codes "if", 260)
    ∷ (codes "else", 261)
    ∷ (codes "while", 262)
    ∷ (codes "do", 263)
    ∷ (codes "return", 264)
    ∷ (codes "function", 265)
    ∷ (codes "bind-cc", 266)
    ∷ (codes "as", 267)
    ∷ (codes "this", 268)
    ∷ []

pub keyword_from : List (List ℕ × ℕ) → List ℕ → Option ℕ
keyword_from [] str = none
keyword_from ((name, k) ∷ rest) str = if strcmp_eq str name then some k else keyword_from rest str

-- `none` is -1.
unfoldable pub keyword : List ℕ → Option ℕ
unfolding keyword_from strcmp_eq
keyword str = keyword_from scan_keywords str

-- `!~;:.,'#[](){}"`
abbrev pub scan_delims : List ℕ
scan_delims = codes "!~;:.,'#[](){}\""

abbrev pub has_char : List ℕ → ℕ → Bool
has_char [] c = false
has_char (d ∷ ds) c = if d == c then true else has_char ds c

-- `strchr(scan_delims, ch)`, which also finds the final zero.
unfoldable pub is_delim : ℕ → Bool
is_delim c = (c == 0) || has_char scan_delims c
