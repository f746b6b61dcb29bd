-- ===== src/Prelude/Bytes.antt =====
-- Little-endian words.
use Prim.Native.Nat.{ℕ, zero, suc, ◌+◌, ◌*◌, ◌/◌, ◌%◌, ◌<◌}
use mathlib.Core.Path.{◌≡◌, refl, ap}
use mathlib.Core.List.{List, [], ◌∷◌, ◌++◌}
use Prim.Native.Char.{code}
use Prim.Native.String.{String}
use mathlib.Core.Bool.{Bool, true, false, ◌&&◌}
use reproduce.Prelude.Tests.{◌==◌, ==-refl}
use native.Mathlib.Omega.{arith}
use reproduce.Prelude.Lists.{length, get_or, take, drop, replicate}

-- The number that a list of bytes stands for, the lowest byte first.
abbrev pub from_le : List ℕ → ℕ
from_le [] = 0
from_le (b ∷ bs) = b + 256 * from_le bs

-- The lowest n bytes of a number.
abbrev pub to_le : ℕ → ℕ → List ℕ
to_le zero w = []
to_le (suc n) w = w % 256 ∷ to_le n (w / 256)

-- Byte j of a word.
abbrev pub byte_of : ℕ → ℕ → ℕ
byte_of zero w = w % 256
byte_of (suc j) w = byte_of j (w / 256)

-- Every element is a byte.
abbrev pub AreBytes : List ℕ → Type 0
AreBytes [] = Unit
AreBytes (b ∷ bs) = (b < 256) × AreBytes bs

pub byte_of-from_le : (j : ℕ) (bs : List ℕ) → AreBytes bs → byte_of j (from_le bs) ≡ get_or bs j 0
byte_of-from_le zero [] h = refl
byte_of-from_le (suc j) [] h = byte_of-from_le j [] h
byte_of-from_le zero (b ∷ bs) h = omega arith
byte_of-from_le (suc j) (b ∷ bs) h =
    let e : (b + 256 * from_le bs) / 256 ≡ from_le bs = omega arith in
    rw e (byte_of-from_le j bs h.1)

pub length-to_le : (n w : ℕ) → length (to_le n w) ≡ n
length-to_le zero w = refl
length-to_le (suc n) w = omega (arith, length-to_le n (w / 256))

pub get_or-to_le : (n j w : ℕ) → j < n → get_or (to_le n w) j 0 ≡ byte_of j w
get_or-to_le zero j w h = elim h [ ]
get_or-to_le (suc n) zero w h = refl
get_or-to_le (suc n) (suc j) w h = get_or-to_le n j (w / 256) (omega arith)

pub get_or-lt : (bs : List ℕ) (j : ℕ) → AreBytes bs → get_or bs j 0 < 256
get_or-lt [] j h = omega arith
get_or-lt (b ∷ bs) zero h = h.0
get_or-lt (b ∷ bs) (suc j) h = get_or-lt bs j h.1

pub byte_of-lt : (j w : ℕ) → byte_of j w < 256
byte_of-lt zero w = omega arith
byte_of-lt (suc j) w = byte_of-lt j (w / 256)

pub to_le-AreBytes : (n w : ℕ) → AreBytes (to_le n w)
to_le-AreBytes zero w = tt
to_le-AreBytes (suc n) w = (omega arith, to_le-AreBytes n (w / 256))

pub take-AreBytes : (n : ℕ) (bs : List ℕ) → AreBytes bs → AreBytes (take n bs)
take-AreBytes zero bs h = tt
take-AreBytes (suc n) [] h = tt
take-AreBytes (suc n) (b ∷ bs) h = (h.0, take-AreBytes n bs h.1)

pub drop-AreBytes : (n : ℕ) (bs : List ℕ) → AreBytes bs → AreBytes (drop n bs)
drop-AreBytes zero bs h = h
drop-AreBytes (suc n) [] h = tt
drop-AreBytes (suc n) (b ∷ bs) h = drop-AreBytes n bs h.1

pub replicate-AreBytes : (n b : ℕ) → b < 256 → AreBytes (replicate n b)
replicate-AreBytes zero b h = tt
replicate-AreBytes (suc n) b h = (h, replicate-AreBytes n b h)

pub append-AreBytes : (bs cs : List ℕ) → AreBytes bs → AreBytes cs → AreBytes (bs ++ cs)
append-AreBytes [] cs h g = g
append-AreBytes (b ∷ bs) cs h g = (h.0, append-AreBytes bs cs h.1 g)

pub to_le-from_le : (bs : List ℕ) → AreBytes bs → to_le (length bs) (from_le bs) ≡ bs
to_le-from_le [] h = refl
to_le-from_le (b ∷ bs) h =
    let low : (b + 256 * from_le bs) % 256 ≡ b = omega arith in
    let high : (b + 256 * from_le bs) / 256 ≡ from_le bs = omega arith in
    rw (low, high) (ap (◌∷◌ b) (to_le-from_le bs h.1))

-- The code points of a text: its bytes, if it is ASCII.
abbrev pub codes : String → List ℕ
codes String.[] = []
codes (String.◌∷◌ c s) = code c ∷ codes s

-- `strcmp(a, b) == 0`
abbrev pub str_eq : List ℕ → List ℕ → Bool
str_eq [] [] = true
str_eq [] (b ∷ bs) = false
str_eq (a ∷ as') [] = false
str_eq (a ∷ as') (b ∷ bs) = (a == b) && str_eq as' bs

pub str_eq_refl : (bs : List ℕ) → str_eq bs bs ≡ true
str_eq_refl [] = refl
str_eq_refl (b ∷ bs) = rw (==-refl b) (str_eq_refl bs)
