-- ===== src/Examples/Texts.antt =====
-- The theorems about muduo/base/LogStream.cc at a concrete input.
use cs_note.Common.{◌<◌, ◌≡◌, ◌++◌, List, [], ◌∷◌, arith, length, codes, negsuc}
use cs_note.Log.{Item, integer, str, FixedBuffer, put_all}
use cs_note.Log.Bounds.{Subsequence, texts, put_all-Subsequence}

abbrev items : List Item
items = integer (negsuc 41) ∷ str (codes "abc") ∷ []

abbrev narrow : FixedBuffer
narrow = record { size = 35; written = [] }

put_all-Subsequence_example :
    ((put_all items narrow).size ≡ narrow.size)
    × (length (put_all items narrow).written < narrow.size)
    × ((kept : List Item) × Subsequence kept items
        × ((put_all items narrow).written ≡ narrow.written ++ texts kept))
put_all-Subsequence_example = put_all-Subsequence items narrow (omega arith, (tt, tt)) (omega arith)
