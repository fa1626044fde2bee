-- ===== src/Readers/Loops.antt =====
-- The loops read everything, whichever reader they are given.
use mathlib.Core.List.{append_assoc, append-nil}
use go_examples.Base.{
  ℕ, zero, suc, ◌≤◌, ◌<◌, ◌≡◌, refl, sym, ap, ◌∙◌, List, [], ◌∷◌, ◌++◌, Option, none, some, arith,
  length, length-append, All,
}
use go_examples.Readers.{
  Bytes, IoError, eof, failure, Reader, add_chunk, after_read, ending, read_in_chunks, flatten,
}

module _ (r : Reader) where
  open r use {State, read, content, content-read, read-bounded, read-eof, read-progress}

  -- How the loop ends, and what it has read then: all of the content, or what came before a failure.
  pub data Ended (s : State) (chunks : List Bytes) : Option (Option IoError) → Type 0 where
    at_eof : flatten r chunks ≡ content s → Ended s chunks (some none)
    at_failure :
        (rest : Bytes) → content s ≡ flatten r chunks ++ rest → Ended s chunks (some (some failure))

  -- The chunks are not empty and fit into the buffer.
  abbrev pub Fits : ℕ → List Bytes → Type 0
  Fits size = All λ c. (0 < length c) × (length c ≤ size)

  pub record HasRead (size : ℕ) (s : State) (o : List Bytes × Option (Option IoError))
      : Type 0 where
    pub ended : Ended s o.0 o.1
    pub fits : Fits size o.0

  flatten-add_chunk : (c : Bytes) (cs : List Bytes) → flatten r (add_chunk c cs) ≡ c ++ flatten r cs
  flatten-add_chunk [] cs = refl
  flatten-add_chunk (b ∷ bs) cs = refl

  add_chunk-Fits :
      (size : ℕ) (c : Bytes) (cs : List Bytes)
      → length c ≤ size
      → Fits size cs
      → Fits size (add_chunk c cs)
  add_chunk-Fits size [] cs l f = f
  add_chunk-Fits size (b ∷ bs) cs l f = ((omega arith, l), f)

  stop-HasRead :
      (size : ℕ) (s : State) (e : IoError)
      → (read size s).error ≡ some e
      → HasRead size s (add_chunk (read size s).chunk [], ending e)
  stop-HasRead size s eof h =
      let x = read size s in
      let z = read-eof size s h in
      record {
        ended =
            at_eof
              (flatten-add_chunk x.chunk [] ∙ sym (content-read size s ∙ ap (λ l. x.chunk ++ l) z));
        fits = add_chunk-Fits size x.chunk [] (read-bounded size s) tt;
      }
  stop-HasRead size s failure h =
      let x = read size s in
      record {
        ended = at_failure (content x.next) (
            content-read size s
            ∙ ap (λ l. l ++ content x.next)
                (sym (flatten-add_chunk x.chunk [] ∙ append-nil x.chunk)));
        fits = add_chunk-Fits size x.chunk [] (read-bounded size s) tt;
      }

  later-Ended :
      (c : Bytes) (s t : State) (cs : List Bytes) (e : Option (Option IoError))
      → content s ≡ c ++ content t
      → Ended t cs e
      → Ended s (add_chunk c cs) e
  later-Ended c s t cs e h (at_eof q) = at_eof (flatten-add_chunk c cs ∙ ap (λ l. c ++ l) q ∙ sym h)
  later-Ended c s t cs e h (at_failure rest q) = at_failure rest (
      h
      ∙ ap (λ l. c ++ l) q
      ∙ sym (append_assoc c (flatten r cs) rest)
      ∙ ap (λ l. l ++ rest) (sym (flatten-add_chunk c cs)))

  round-HasRead :
      (size : ℕ) (s : State) (o : Option IoError) (later : List Bytes × Option (Option IoError))
      → (read size s).error ≡ o
      → (o ≡ none → HasRead size (read size s).next later)
      → HasRead size s (after_read (read size s).chunk o later)
  round-HasRead size s (some e) later h k = stop-HasRead size s e h
  round-HasRead size s none (chunks, e) h k =
      let x = read size s in
      let rest = k refl in
      record {
        ended = later-Ended x.chunk s x.next chunks e (content-read size s) rest.ended;
        fits = add_chunk-Fits size x.chunk chunks (read-bounded size s) rest.fits;
      }

  -- With a buffer, and fuel for the bytes that are to be read and one more, the loop ends: at EOF it has read the content,
  -- and at a failure what came before it. A Read may return data together with its error, and no
  -- data is lost then. No chunk is empty or larger than the buffer.
  pub read_in_chunks-HasRead :
      (size fuel : ℕ) (s : State)
      → 0 < size
      → length (content s) < fuel
      → HasRead size s (read_in_chunks r size fuel s)
  unfolding read_in_chunks
  read_in_chunks-HasRead size zero s p f = ground (arith, f)
  read_in_chunks-HasRead size (suc fuel) s p f =
      let x = read size s in
      round-HasRead size s x.error (read_in_chunks r size fuel x.next) refl (λ h.
        read_in_chunks-HasRead size fuel x.next p (
          omega (
            arith,
            f,
            read-progress size s p h,
            ap length (content-read size s),
            length-append x.chunk (content x.next),
          )))
