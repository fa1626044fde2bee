-- ===== src/Readers/Tests.antt =====
-- Short texts, and the theorems at them.
use go_examples.Base.{◌≡◌, refl, [], ◌∷◌, none, some, arith}
use go_examples.Readers.{read_in_chunks, copy, write_all, buffered_lines, read_tee}
use go_examples.Readers.Loops.{HasRead, read_in_chunks-HasRead}
use go_examples.Readers.Limited.{string_reader, limit_reader}
use go_examples.Readers.Copies.{HasCopied, copy-HasCopied}

-- Chunks of two bytes, and EOF with no data.
chunks-run :
    read_in_chunks string_reader 2 9 (1 ∷ 2 ∷ 3 ∷ []) ≡ ((1 ∷ 2 ∷ []) ∷ (3 ∷ []) ∷ [], some none)
unfolding read_in_chunks
chunks-run = refl

tee-run : (read_tee string_reader 2 (1 ∷ 2 ∷ 3 ∷ [], [])).next ≡ (3 ∷ [], 1 ∷ 2 ∷ [])
tee-run = refl

read_in_chunks-HasRead_example :
    HasRead string_reader 2 (1 ∷ 2 ∷ 3 ∷ []) (read_in_chunks string_reader 2 9 (1 ∷ 2 ∷ 3 ∷ []))
read_in_chunks-HasRead_example =
    read_in_chunks-HasRead string_reader 2 9 (1 ∷ 2 ∷ 3 ∷ []) (omega arith) (omega arith)

copy-HasCopied_instance :
    HasCopied
      (limit_reader string_reader)
      (9 ∷ [])
      (1 ∷ 2 ∷ [])
      (copy (limit_reader string_reader) 4 (9 ∷ []) (1 ∷ 2 ∷ 3 ∷ [], 2))
copy-HasCopied_instance =
    copy-HasCopied (limit_reader string_reader) 4 (9 ∷ []) (1 ∷ 2 ∷ 3 ∷ [], 2) (omega arith)

two_lines : buffered_lines ((97 ∷ []) ∷ [] ∷ []) none ≡ ((1, 97 ∷ []) ∷ (2, []) ∷ [], none)
unfolding buffered_lines
two_lines = refl

sinks-run : write_all (1 ∷ 2 ∷ []) ([] ∷ (3 ∷ []) ∷ []) ≡ (1 ∷ 2 ∷ []) ∷ (3 ∷ 1 ∷ 2 ∷ []) ∷ []
unfolding write_all
sinks-run = refl
