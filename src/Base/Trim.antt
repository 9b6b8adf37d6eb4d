-- ===== src/Base/Trim.antt =====
-- `str::trim`: the characters of Unicode's White_Space at both ends, in UTF-8.
use Prim.Native.Nat.{ℕ}
use mathlib.Core.Bool.{Bool, ◌&&◌, ◌||◌}
use mathlib.Core.List.{List, [], ◌∷◌, reverse}
use proxypen.Base.Tests.{leb, ◌==◌, if◌then◌else◌}

is_white : ℕ → Bool
is_white a = (leb 9 a && leb a 13) || a == 32

is_white2 : ℕ → ℕ → Bool
is_white2 a b = a == 0xc2 && (b == 0x85 || b == 0xa0)

is_white3 : ℕ → ℕ → ℕ → Bool
is_white3 a b c =
    (a == 0xe1 && b == 0x9a && c == 0x80)
    || (a == 0xe2
        && b == 0x80
        && ((leb 0x80 c && leb c 0x8a) || c == 0xa8 || c == 0xa9 || c == 0xaf))
    || (a == 0xe2 && b == 0x81 && c == 0x9f)
    || (a == 0xe3 && b == 0x80 && c == 0x80)

-- The front is cut while a character of white space stands there.
module _ (two : ℕ → ℕ → Bool) (three : ℕ → ℕ → ℕ → Bool) where
  trim_front : List ℕ → List ℕ
  unfolding is_white
  trim_front [] = []
  trim_front (a ∷ []) = if is_white a then [] else a ∷ []
  trim_front (a ∷ b ∷ []) =
      let behind = trim_front (b ∷ []) in
      if is_white a then behind else if two a b then [] else a ∷ b ∷ []
  trim_front (a ∷ b ∷ c ∷ s) =
      let behind = trim_front (b ∷ c ∷ s) in
      let behind_two = trim_front (c ∷ s) in
      let behind_three = trim_front s in
      if is_white a
      then behind
      else if two a b
      then behind_two
      else if three a b c
      then behind_three
      else a ∷ b ∷ c ∷ s

unfoldable pub trim : List ℕ → List ℕ
unfolding trim_front is_white2 is_white3
trim s = reverse (
    trim_front (λ b a. is_white2 a b) (λ c b a. is_white3 a b c)
      (reverse (trim_front is_white2 is_white3 s)))
