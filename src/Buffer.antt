-- ===== src/Buffer.antt =====
-- Growing byte buffers: move/buffer.c.
pub mod Append
use move.Base.{
  ℕ, suc, ◌+◌, ◌≡◌, Option, none, some, List, ◌++◌, length, set, replicate, leb, if◌then◌else◌,
}

-- `buf` has `buflength` bytes, of which the first `pos` are written; `none` is a byte of fresh memory.
pub record Buffer : Type 0 where
  pub buf : List (Option ℕ)
  pub pos : ℕ

abbrev pub buflength : Buffer → ℕ
buflength b = length b.buf

unfoldable pub newbuf : ℕ → Buffer
newbuf initial_length = record { buf = replicate initial_length none; pos = 0 }

-- The `if` of buf_append: 128 bytes more behind a copy of the old ones.
abbrev pub grown : Buffer → Buffer
grown b = if leb (buflength b) b.pos then record b { buf = b.buf ++ replicate 128 none } else b

unfoldable pub buf_append : Buffer → ℕ → Buffer
buf_append b ch =
    let roomy = grown b in record { buf = set roomy.buf b.pos (some ch); pos = suc b.pos }
