-- ===== src/Readers.antt =====
-- examples/io-readers-writers/main.go, and of package io what it uses. A byte is a number. `Reader` is the contract of
-- io.Reader: the readers of the example meet it, and the loops are for any reader that does. A loop over a reader
-- has fuel.
pub mod Loops
pub mod Limited
pub mod Copies
mod Tests
use go_examples.Base.{
  ℕ, zero, suc, ◌+◌, ◌-◌, ◌≤◌, ◌<◌, ◌≡◌, refl, Bool, true, false, List, [], ◌∷◌, ◌++◌, map, Option,
  none, some, arith, take, length, ◌==◌, leb, if◌then◌else◌,
}

abbrev pub Bytes : Type 0
Bytes = List ℕ

pub data IoError : Type 0 where
  eof failure : IoError

-- What a Read does: the bytes it puts into the buffer, its error, and the reader afterwards.
pub record ReadResult (S : Type 0) : Type 0 where
  pub chunk : Bytes
  pub error : Option IoError
  pub next : S

-- A Read into a buffer of n bytes; data may come with an error. `content` is what is still to be read.
pub record Reader : Type 1 where
  pub State : Type 0
  pub read : ℕ → State → ReadResult State
  pub content : State → Bytes
  pub content-read : (n : ℕ) (s : State) → content s ≡ (read n s).chunk ++ content (read n s).next
  pub read-bounded : (n : ℕ) (s : State) → length (read n s).chunk ≤ n
  pub read-eof : (n : ℕ) (s : State) → (read n s).error ≡ some eof → content (read n s).next ≡ []
  pub read-progress :
      (n : ℕ) (s : State) → 0 < n → (read n s).error ≡ none → 0 < length (read n s).chunk

abbrev pub skip : ℕ → Bytes → Bytes
skip zero xs = xs
skip (suc n) [] = []
skip (suc n) (x ∷ xs) = skip n xs

-- strings.Reader
abbrev pub read_string : ℕ → Bytes → ReadResult Bytes
read_string n [] = record { chunk = []; error = some eof; next = [] }
read_string n (x ∷ xs) = record { chunk = take n (x ∷ xs); error = none; next = skip n (x ∷ xs) }

abbrev pub add_chunk : Bytes → List Bytes → List Bytes
add_chunk [] chunks = chunks
add_chunk (b ∷ bs) chunks = (b ∷ bs) ∷ chunks

-- How the loop of `readInChunks` ends: nil at EOF, or the error. `none` is out of fuel.
abbrev pub ending : IoError → Option (Option IoError)
ending eof = some none
ending failure = some (some failure)

-- A round, given what the later rounds do: the chunk comes before the error.
abbrev pub after_read :
    Bytes
    → Option IoError
    → List Bytes × Option (Option IoError)
    → List Bytes × Option (Option IoError)
after_read c (some e) later = (add_chunk c [], ending e)
after_read c none (chunks, e) = (add_chunk c chunks, e)

module _ (r : Reader) where
  open r use {State, read}

  -- The loop of `readInChunks`, with a buffer of `size` bytes: the chunks it prints, and how it ends.
  unfoldable pub read_in_chunks : ℕ → ℕ → State → List Bytes × Option (Option IoError)
  read_in_chunks size zero s = ([], none)
  read_in_chunks size (suc fuel) s =
      let x = read size s in after_read x.chunk x.error (read_in_chunks size fuel x.next)

  -- io.Copy to a bytes.Buffer, which takes every byte: the buffer, the count and the error.
  abbrev pub flatten : List Bytes → Bytes
  flatten [] = []
  flatten (c ∷ cs) = c ++ flatten cs

  pub record Copied : Type 0 where
    pub buffer : Bytes
    pub count : ℕ
    pub result : Option (Option IoError)

  abbrev pub copied : Bytes → List Bytes × Option (Option IoError) → Copied
  copied dst (chunks, e) = record {
    buffer = dst ++ flatten chunks;
    count = length (flatten chunks);
    result = e;
  }

  unfoldable pub copy : ℕ → Bytes → State → Copied
  unfolding read_in_chunks
  copy fuel dst s = copied dst (read_in_chunks 32768 fuel s)

  -- io.TeeReader: the state has what its writer, a hash, was given.
  abbrev pub read_tee : ℕ → State × Bytes → ReadResult (State × Bytes)
  read_tee n (s, seen) =
      let x = read n s in
      record { chunk = x.chunk; error = x.error; next = (x.next, seen ++ x.chunk) }

  -- io.LimitReader: the state has the bytes that are left of the cap.
  abbrev pub read_limited : ℕ → State × ℕ → ReadResult (State × ℕ)
  read_limited n (s, zero) = record { chunk = []; error = some eof; next = (s, zero) }
  read_limited n (s, suc left) =
      let x = read (if leb n (suc left) then n else suc left) s in
      record { chunk = x.chunk; error = x.error; next = (x.next, suc left - length x.chunk) }

-- io.MultiWriter over sinks that take every byte.
unfoldable pub write_all : Bytes → List Bytes → List Bytes
write_all p [] = []
write_all p (sink ∷ sinks) = (sink ++ p) ∷ write_all p sinks

-- The loop of `bufferedLines`, given the tokens that the bufio.Scanner finds: the lines with their numbers.
abbrev pub number_lines : ℕ → List Bytes → List (ℕ × Bytes)
number_lines line [] = []
number_lines line (token ∷ tokens) = (line, token) ∷ number_lines (line + 1) tokens

-- `bufferedLines`: what it prints, and the error of the Scanner.
unfoldable pub buffered_lines : List Bytes → Option IoError → List (ℕ × Bytes) × Option IoError
buffered_lines tokens e = (number_lines 1 tokens, e)
