-- ===== src/Base/Utf8.antt =====
-- `String::from_utf8_lossy` of the standard library. A `String` is the list of its UTF-8 bytes.
use native.Mathlib.Omega.{arith}
use proxypen.Base.Tests.{lt→ltb, ltb, leb, ◌==◌, if◌then◌else◌}
use proxypen.Base.Lists.{All, length, get_or, take, drop, take-append-drop}
use Prim.Native.Nat.{ℕ, zero, suc, ◌<◌}
use mathlib.Core.Path.{◌≡◌, refl}
use mathlib.Core.Bool.{Bool, true, false, not, ◌&&◌}
use mathlib.Core.List.{List, [], ◌∷◌, ◌++◌}

in_range : ℕ → ℕ → ℕ → Bool
in_range lo hi b = leb lo b && leb b hi

-- The bytes that a character takes, by its first byte; 0 where no character begins so.
width : ℕ → ℕ
unfolding in_range
width b =
    if ltb b 128
    then 1
    else if in_range 194 223 b
    then 2
    else if in_range 224 239 b
    then 3
    else if in_range 240 244 b
    then 4
    else 0

is_continuation : ℕ → Bool
unfolding in_range
is_continuation b = in_range 128 191 b

-- Whether `c` may follow the first byte `b`: no overlong form, no surrogate, nothing past 0x10ffff.
is_second : ℕ → ℕ → Bool
unfolding in_range
is_second b c =
    if b == 224
    then in_range 160 191 c
    else if b == 237
    then in_range 128 159 c
    else if b == 240
    then in_range 144 191 c
    else if b == 244
    then in_range 128 143 c
    else in_range 128 191 c

-- The length of the first chunk of the input, and whether it is a whole character.
chunk : List ℕ → ℕ × Bool
unfolding width is_second is_continuation
chunk bs =
    let b = get_or bs 0 0 in
    if width b == 0
    then (1, false)
    else if width b == 1
    then (1, true)
    else if not (is_second b (get_or bs 1 0))
    then (1, false)
    else if width b == 2
    then (2, true)
    else if not (is_continuation (get_or bs 2 0))
    then (2, false)
    else if width b == 3
    then (3, true)
    else if not (is_continuation (get_or bs 3 0))
    then (3, false)
    else (4, true)

-- U+FFFD
replacement : List ℕ
replacement = 0xef ∷ 0xbf ∷ 0xbd ∷ []

emit : ℕ × Bool → List ℕ → List ℕ
unfolding replacement
emit (n, true) bs = take n bs
emit (n, false) bs = replacement

-- A round takes a byte at least: the length of the input is fuel enough.
lossy : ℕ → List ℕ → List ℕ
unfolding chunk emit
lossy zero bs = []
lossy (suc fuel) [] = []
lossy (suc fuel) (b ∷ bs) =
    let c = chunk (b ∷ bs) in emit c (b ∷ bs) ++ lossy fuel (drop (c.0) (b ∷ bs))

unfoldable pub from_utf8_lossy : List ℕ → List ℕ
unfolding lossy
from_utf8_lossy bs = lossy (length bs) bs

valid : ℕ → List ℕ → Bool
unfolding chunk
valid zero [] = true
valid zero (b ∷ bs) = false
valid (suc fuel) [] = true
valid (suc fuel) (b ∷ bs) = let c = chunk (b ∷ bs) in c.1 && valid fuel (drop (c.0) (b ∷ bs))

-- The bytes are those of a `String`.
unfoldable pub IsUtf8 : List ℕ → Type 0
unfolding valid
IsUtf8 bs = valid (length bs) bs ≡ true

lossy-valid : (fuel : ℕ) (bs : List ℕ) → valid fuel bs ≡ true → lossy fuel bs ≡ bs
unfolding valid lossy
lossy-valid zero [] h = refl
lossy-valid zero (b ∷ bs) h = cc
lossy-valid (suc fuel) [] h = refl
lossy-valid (suc fuel) (b ∷ bs) h = ground (
  arith,
  lossy-valid fuel (drop ((chunk (b ∷ bs)).0) (b ∷ bs)),
  take-append-drop ((chunk (b ∷ bs)).0) (b ∷ bs),
)

-- A `String` is its own lossy conversion.
pub from_utf8_lossy-IsUtf8 : (bs : List ℕ) → IsUtf8 bs → from_utf8_lossy bs ≡ bs
unfolding IsUtf8 from_utf8_lossy
from_utf8_lossy-IsUtf8 bs h = lossy-valid (length bs) bs h

valid-ascii : (bs : List ℕ) → All (λ b. b < 128) bs → valid (length bs) bs ≡ true
unfolding valid
valid-ascii [] h = refl
valid-ascii (b ∷ bs) h =
    let one : ltb b 128 ≡ true = lt→ltb b 128 h.0 in rw one (valid-ascii bs h.1)

-- ASCII is text.
pub ascii-IsUtf8 : (bs : List ℕ) → All (λ b. b < 128) bs → IsUtf8 bs
unfolding IsUtf8
ascii-IsUtf8 bs h = valid-ascii bs h
