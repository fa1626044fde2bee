-- ===== src/Readers/Copies.antt =====
-- Copies of a reader and of its first bytes.
use go_examples.Base.{ℕ, ◌<◌, ◌≡◌, refl, ap, List, ◌++◌, Option, none, some, arith, take, length}
use go_examples.Readers.{
  Bytes, IoError, failure, Reader, flatten, Copied, copied, copy, read_in_chunks,
}
use go_examples.Readers.Loops.{Ended, at_eof, at_failure, read_in_chunks-HasRead}
use go_examples.Readers.Limited.{limit_reader}

module _ (r : Reader) where
  open r use {State, content}

  -- What a copy has done when it ends.
  pub data HasCopied (dst text : Bytes) (c : Copied r) : Type 0 where
    whole :
        c.result ≡ some none → c.buffer ≡ dst ++ text → c.count ≡ length text → HasCopied dst text c
    broken :
        (start rest : Bytes)
        → c.result ≡ some (some failure)
        → text ≡ start ++ rest
        → c.buffer ≡ dst ++ start
        → c.count ≡ length start
        → HasCopied dst text c

  copied-HasCopied :
      (dst : Bytes) (s : State) (chunks : List Bytes) (e : Option (Option IoError))
      → Ended r s chunks e
      → HasCopied dst (content s) (copied r dst (chunks, e))
  copied-HasCopied dst s chunks e (at_eof q) = whole refl (ap (λ l. dst ++ l) q) (ap length q)
  copied-HasCopied dst s chunks e (at_failure rest q) =
      broken (flatten r chunks) rest refl q refl refl

  -- io.Copy ends, and then has appended the whole content to the buffer and returns its length, or it
  -- returns the reader's failure, what it has appended is the start of the content, and the count is
  -- that of the bytes appended.
  pub copy-HasCopied :
      (fuel : ℕ) (dst : Bytes) (s : State)
      → length (content s) < fuel
      → HasCopied dst (content s) (copy r fuel dst s)
  unfolding copy
  copy-HasCopied fuel dst s f =
      let h = read_in_chunks-HasRead r 32768 fuel s (omega arith) f in
      copied-HasCopied dst s (read_in_chunks r 32768 fuel s).0 (read_in_chunks r 32768 fuel s).1
        h.ended

-- A copy of a limited reader is one of the first bytes.
pub limited_copy :
    (r : Reader) (fuel cap : ℕ) (dst : Bytes) (s : r.State)
    → length (take cap (r.content s)) < fuel
    → HasCopied
        (limit_reader r)
        dst
        (take cap (r.content s))
        (copy (limit_reader r) fuel dst (s, cap))
limited_copy r fuel cap dst s f = copy-HasCopied (limit_reader r) fuel dst (s, cap) f
