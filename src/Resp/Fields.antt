-- ===== src/Resp/Fields.antt =====
-- `strings.Fields` of the Go library, on the bytes of a UTF-8 text.
use dist_cache.Base.{ℕ, zero, suc, ◌&&◌, ◌||◌, List, [], ◌∷◌, ◌++◌, Bytes, if◌then◌else◌, leb, ◌==◌}

-- The number of bytes of the space that stands in front, or 0. A space is what `unicode.IsSpace`
-- accepts; the first byte of each is no inner byte of another character.
unfoldable pub space_width : Bytes → ℕ
space_width (a ∷ b ∷ c ∷ _) =
    if (leb 9 a && leb a 13) || (a == 32)
    then 1
    else if (a == 0xc2) && ((b == 0x85) || (b == 0xa0))
    then 2
    else if (a == 0xe1) && ((b == 0x9a) && (c == 0x80))
    then 3
    else if (a == 0xe2)
        && ((b == 0x80)
            && ((leb 0x80 c && leb c 0x8a) || (c == 0xa8) || (c == 0xa9) || (c == 0xaf)))
    then 3
    else if (a == 0xe2) && ((b == 0x81) && (c == 0x9f))
    then 3
    else if (a == 0xe3) && ((b == 0x80) && (c == 0x80))
    then 3
    else 0
space_width (a ∷ b ∷ []) =
    if (leb 9 a && leb a 13) || (a == 32)
    then 1
    else if (a == 0xc2) && ((b == 0x85) || (b == 0xa0))
    then 2
    else 0
space_width (a ∷ []) = if (leb 9 a && leb a 13) || (a == 32) then 1 else 0
space_width [] = 0

abbrev flush_word : Bytes → List Bytes → List Bytes
flush_word [] words = words
flush_word (c ∷ cs) words = (c ∷ cs) ∷ words

-- The bytes of a space still to skip, the word so far, and what is left.
unfoldable pub fields_from : ℕ → Bytes → Bytes → List Bytes
unfolding space_width
fields_from skip word [] = flush_word word []
fields_from (suc k) word (c ∷ cs) = fields_from k word cs
fields_from zero word (c ∷ cs) = elim (space_width (c ∷ cs)) [
  | zero ↦ fields_from zero (word ++ c ∷ []) cs
  | suc k ↦ flush_word word (fields_from k [] cs)
]

unfoldable pub fields : Bytes → List Bytes
unfolding fields_from
fields line = fields_from 0 [] line
