-- ===== src/Prelude/Texts.antt =====
-- Texts as lists of UTF-8 bytes, and the operations of `str` that the program calls.
use Prim.Native.Char.{code}
use Prim.Native.String.{String}
use Prim.Native.Nat.{ℕ, zero, suc, ◌+◌}
use mathlib.Core.Path.{◌≡◌, refl}
use mathlib.Core.Bool.{Bool, false, ◌&&◌, ◌||◌}
use mathlib.Core.List.{List, [], ◌∷◌, ◌++◌, map, reverse}
use mathlib.Core.Option.{Option, none, some}
use native.Mathlib.Omega.{arith}
use tuyau.Prelude.Tests.{leb, nat_eq, ◌==◌, if◌then◌else◌, is_some, ==_refl}

abbrev pub Text : Type 0
Text = List ℕ

-- The bytes of an ASCII literal.
abbrev pub bytes : String → Text
bytes String.[] = []
bytes (String.◌∷◌ c s) = code c ∷ bytes s

-- `u8::to_ascii_lowercase`
unfoldable pub lower_byte : ℕ → ℕ
lower_byte c = if leb b'A' c && leb c b'Z' then c + 32 else c

unfoldable pub to_ascii_lowercase : Text → Text
unfolding lower_byte
to_ascii_lowercase s = map lower_byte s

lower_byte_idem : (c : ℕ) → lower_byte (lower_byte c) ≡ lower_byte c
unfolding lower_byte
lower_byte_idem c = ground arith

pub to_ascii_lowercase_idem :
    (s : Text) → to_ascii_lowercase (to_ascii_lowercase s) ≡ to_ascii_lowercase s
unfolding to_ascii_lowercase
to_ascii_lowercase_idem [] = refl
to_ascii_lowercase_idem (c ∷ s) = cc (lower_byte_idem c, to_ascii_lowercase_idem s)

-- `str::split_once` and `str::rsplit_once` at one ASCII character.
unfoldable pub split_once : ℕ → Text → Option (Text × Text)
split_once c [] = none
split_once c (b ∷ s) =
    let rest = split_once c s in
    if b == c then some ([], s) else elim rest [ none ↦ none | some (l, r) ↦ some (b ∷ l, r) ]

unfoldable pub rsplit_once : ℕ → Text → Option (Text × Text)
rsplit_once c [] = none
rsplit_once c (b ∷ s) = elim (rsplit_once c s) [
  | some (l, r) ↦ some (b ∷ l, r)
  | none ↦ if b == c then some ([], s) else none
]

-- `str::strip_prefix` and `str::starts_with`
unfoldable pub strip_prefix : Text → Text → Option Text
strip_prefix [] s = some s
strip_prefix (c ∷ p) [] = none
strip_prefix (c ∷ p) (b ∷ s) = if c == b then strip_prefix p s else none

abbrev pub starts_with : Text → Text → Bool
starts_with p s = is_some (strip_prefix p s)

-- `str::ends_with` one ASCII character.
unfoldable pub ends_with : ℕ → Text → Bool
ends_with c [] = false
ends_with c (b ∷ []) = b == c
ends_with c (b ∷ a ∷ s) = ends_with c (a ∷ s)

-- `str::trim_end_matches` of one ASCII character.
unfoldable pub trim_end_matches : ℕ → Text → Text
trim_end_matches c [] = []
trim_end_matches c (b ∷ s) = elim (trim_end_matches c s) [
  | [] ↦ if b == c then [] else b ∷ []
  | x ∷ t ↦ b ∷ x ∷ t
]

-- The characters with the property White_Space, by the length of their UTF-8.
white1 : ℕ → Bool
white1 a = (leb 9 a && leb a 13) || a == 32

white2 : ℕ → ℕ → Bool
white2 a b = a == 0xc2 && (b == 0x85 || b == 0xa0)

white3 : ℕ → ℕ → ℕ → Bool
white3 a b c =
    (a == 0xe1 && b == 0x9a && c == 0x80)
    || (a == 0xe2
        && b == 0x80
        && ((leb 0x80 c && leb c 0x8a) || c == 0xa8 || c == 0xa9 || c == 0xaf))
    || (a == 0xe2 && b == 0x81 && c == 0x9f)
    || (a == 0xe3 && b == 0x80 && c == 0x80)

-- How many more bytes the white space has that a text begins with, if it begins with any.
white_start : Text → Option ℕ
unfolding white1 white2 white3
white_start [] = none
white_start (a ∷ []) = if white1 a then some 0 else none
white_start (a ∷ b ∷ []) = if white1 a then some 0 else (if white2 a b then some 1 else none)
white_start (a ∷ b ∷ c ∷ s) =
    if white1 a
    then some 0
    else (if white2 a b then some 1 else (if white3 a b c then some 2 else none))

-- The same of a text that is read backwards.
white_end : Text → Option ℕ
unfolding white1 white2 white3
white_end [] = none
white_end (a ∷ []) = if white1 a then some 0 else none
white_end (a ∷ b ∷ []) = if white1 a then some 0 else (if white2 b a then some 1 else none)
white_end (a ∷ b ∷ c ∷ s) =
    if white1 a
    then some 0
    else (if white2 b a then some 1 else (if white3 c b a then some 2 else none))

-- Drops what `white` finds at the start, after the given number of bytes of the last find.
trim_by : (Text → Option ℕ) → ℕ → Text → Text
trim_by white n [] = []
trim_by white (suc n) (c ∷ s) = trim_by white n s
trim_by white zero (c ∷ s) = elim (white (c ∷ s)) [
  | none ↦ c ∷ s
  | some more ↦ trim_by white more s
]

-- `str::trim`
unfoldable pub trim : Text → Text
unfolding trim_by white_start white_end
trim s = reverse (trim_by white_end 0 (reverse (trim_by white_start 0 s)))

pub strip_prefix_append : (p s : Text) → strip_prefix p (p ++ s) ≡ some s
unfolding strip_prefix
strip_prefix_append [] s = refl
strip_prefix_append (c ∷ p) s = rw (==_refl c) (strip_prefix_append p s)

pub strip_prefix-eq-some : (p s : Text) {rest : Text} → strip_prefix p s ≡ some rest → s ≡ p ++ rest
unfolding strip_prefix
strip_prefix-eq-some [] s h = cc
strip_prefix-eq-some (c ∷ p) [] h = cc
strip_prefix-eq-some (c ∷ p) (b ∷ s) {rest} h =
    ground (arith, strip_prefix-eq-some p s {rest = rest})
