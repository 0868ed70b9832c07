-- ===== src/Sni/Utf8.antt =====
-- `str::from_utf8`, as far as it says which bytes are UTF-8.
use tuyau.Prelude.{
  ℕ, zero, suc, Bool, true, false, ◌&&◌, List, [], ◌∷◌, Option, none, some, if◌then◌else◌, ltb, leb,
  nat_beq,
}

-- For a first byte: how many bytes follow, and the range of the first of them.
pub lead : ℕ → Option (ℕ × ℕ × ℕ)
lead a =
    if ltb a 0x80
    then some (0, 0, 0)
    else (if ltb a 0xc2
        then none
        else (if ltb a 0xe0
            then some (1, 0x80, 0xbf)
            else (if nat_beq a 0xe0
                then some (2, 0xa0, 0xbf)
                else (if nat_beq a 0xed
                    then some (2, 0x80, 0x9f)
                    else (if ltb a 0xf0
                        then some (2, 0x80, 0xbf)
                        else (if nat_beq a 0xf0
                            then some (3, 0x90, 0xbf)
                            else (if ltb a 0xf4
                                then some (3, 0x80, 0xbf)
                                else (if nat_beq a 0xf4 then some (3, 0x80, 0x8f) else none))))))))

-- The rest of a text inside a character of which some bytes are missing.
pub utf8_from : ℕ → ℕ → ℕ → List ℕ → Bool
unfolding lead
utf8_from zero lo hi [] = true
utf8_from (suc n) lo hi [] = false
utf8_from zero lo hi (a ∷ s) = elim (lead a) [
  | none ↦ false
  | some (n, lo', hi') ↦ utf8_from n lo' hi' s
]
utf8_from (suc n) lo hi (b ∷ s) = leb lo b && leb b hi && utf8_from n 0x80 0xbf s

unfoldable pub is_utf8 : List ℕ → Bool
unfolding utf8_from
is_utf8 s = utf8_from 0 0 0 s
