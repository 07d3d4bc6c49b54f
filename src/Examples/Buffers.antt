-- ===== src/Examples/Buffers.antt =====
-- The theorems about muduo/net/Buffer.h at concrete buffers.
use cs_note.Common.{◌≡◌, [], ◌∷◌, ◌++◌, arith, ok}
use cs_note.Buffer.{Buffer, contents, append, read_fd, received}
use cs_note.Buffer.Contents.{IsValid, Result}
use cs_note.Buffer.Writing.{append-Result}
use cs_note.Buffer.Filling.{read_fd-Result}
use cs_note.Examples.{filled}

abbrev abc : Buffer
abc = filled (97 ∷ 98 ∷ 99 ∷ [])

abc-IsValid : IsValid abc
abc-IsValid = omega arith

-- Seven bytes do not fit behind the content.
append-Result_example :
    Result
      (contents abc ++ (1 ∷ 2 ∷ 3 ∷ 4 ∷ 5 ∷ 6 ∷ 7 ∷ []))
      (append (1 ∷ 2 ∷ 3 ∷ 4 ∷ 5 ∷ 6 ∷ 7 ∷ []) abc)
append-Result_example =
    append-Result {b = abc} (1 ∷ 2 ∷ 3 ∷ 4 ∷ 5 ∷ 6 ∷ 7 ∷ []) abc-IsValid (omega arith)

-- Six bytes arrive where four fit.
read_fd-Result_example :
    (b' : Buffer) × (read_fd (received (1 ∷ 2 ∷ 3 ∷ 4 ∷ 5 ∷ 6 ∷ [])) abc
      ≡ ok (received (1 ∷ 2 ∷ 3 ∷ 4 ∷ 5 ∷ 6 ∷ []), b'))
    × IsValid b'
    × (contents b' ≡ contents abc ++ (1 ∷ 2 ∷ 3 ∷ 4 ∷ 5 ∷ 6 ∷ []))
read_fd-Result_example =
    read_fd-Result {b = abc} (1 ∷ 2 ∷ 3 ∷ 4 ∷ 5 ∷ 6 ∷ []) abc-IsValid (omega arith)
