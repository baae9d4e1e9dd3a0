-- ===== src/Prelude/Text.antt =====
-- Text as its UTF-8 bytes, and integers as their bytes: what the source uses of `core::str` and of
-- `from_be_bytes`, `to_be_bytes`, `from_le_bytes`, `to_le_bytes`.
use Prim.Native.Nat.{ℕ, zero, suc, ◌+◌, ◌*◌, ◌/◌, ◌%◌, ◌^◌, ◌<◌}
use Prim.Native.Char.{code}
use Prim.Native.String.{String}
use mathlib.Core.Path.{◌≡◌, refl, ap, ◌∙◌}
use mathlib.Core.Bool.{Bool, true, false, ◌&&◌}
use mathlib.Core.Option.{Option, none, some}
use mathlib.Core.List.{List, [], ◌∷◌, ◌++◌}
use mathlib.Core.List.{append-nil}
use native.Mathlib.Nat.{zero-add, pow-suc}
use native.Mathlib.Omega.{arith}
use jq_ble.Prelude.Tests.{ltb, leb, nat_beq, if◌then◌else◌}
use jq_ble.Prelude.Lists.{Bytes, length, All, IsByte}

-- The bytes of an ASCII literal.
abbrev pub codes : String → Bytes
codes String.[] = []
codes (String.◌∷◌ c s) = code c ∷ codes s

-- The ranges of the continuation bytes that a lead byte asks for.
utf8_lead : ℕ → Option (List (ℕ × ℕ))
utf8_lead b =
    if ltb b 0x80
    then some []
    else if ltb b 0xC2
    then none
    else if ltb b 0xE0
    then some ((0x80, 0xBF) ∷ [])
    else if ltb b 0xF0
    then some (three ∷ (0x80, 0xBF) ∷ [])
    else if ltb b 0xF5
    then some (four ∷ (0x80, 0xBF) ∷ (0x80, 0xBF) ∷ [])
    else none
  where
    three : ℕ × ℕ
    three =
        if nat_beq b 0xE0
        then (0xA0, 0xBF)
        else if nat_beq b 0xED
        then (0x80, 0x9F)
        else (0x80, 0xBF)

    four : ℕ × ℕ
    four =
        if nat_beq b 0xF0
        then (0x90, 0xBF)
        else if nat_beq b 0xF4
        then (0x80, 0x8F)
        else (0x80, 0xBF)

utf8_from : List (ℕ × ℕ) → Bytes → Bool
unfolding utf8_lead
utf8_from [] [] = true
utf8_from (r ∷ rs) [] = false
utf8_from [] (b ∷ bs) = elim (utf8_lead b) [ none ↦ false | some ranges ↦ utf8_from ranges bs ]
utf8_from ((lo, hi) ∷ rs) (b ∷ bs) = leb lo b && leb b hi && utf8_from rs bs

-- `String::from_utf8(bytes).is_ok()`.
unfoldable pub is_utf8 : Bytes → Bool
unfolding utf8_from
is_utf8 bs = utf8_from [] bs

from_be : ℕ → Bytes → ℕ
from_be acc [] = acc
from_be acc (b ∷ bs) = from_be (acc * 256 + b) bs

to_be : ℕ → ℕ → Bytes → Bytes
to_be zero x acc = acc
to_be (suc n) x acc = to_be n (x / 256) ((x % 256) ∷ acc)

unfoldable pub from_be_bytes : Bytes → ℕ
unfolding from_be
from_be_bytes bs = from_be 0 bs

unfoldable pub to_be_bytes : ℕ → ℕ → Bytes
unfolding to_be
to_be_bytes n x = to_be n x []

unfoldable pub from_le_bytes : Bytes → ℕ
from_le_bytes [] = 0
from_le_bytes (b ∷ bs) = b + from_le_bytes bs * 256

unfoldable pub to_le_bytes : ℕ → ℕ → Bytes
to_le_bytes zero x = []
to_le_bytes (suc n) x = (x % 256) ∷ to_le_bytes n (x / 256)

to_be-from_be :
    (k a : ℕ) (bs acc : Bytes)
    → All IsByte bs
    → to_be (length bs + k) (from_be a bs) acc ≡ to_be k a (bs ++ acc)
unfolding to_be from_be
to_be-from_be k a [] acc h = rw zero-add
to_be-from_be k a (b ∷ bs) acc h =
    let e : suc (length bs) + k ≡ length bs + suc k = omega arith in
    let q : (a * 256 + b) / 256 ≡ a = omega (arith, h.0) in
    let r : (a * 256 + b) % 256 ≡ b = omega (arith, h.0) in
    rw e (to_be-from_be (suc k) (a * 256 + b) bs acc h.1 ∙ rw (q, r))

-- A big-endian integer gives back the bytes that it was made of.
pub to_be_bytes-from_be_bytes :
    (bs : Bytes) → All IsByte bs → to_be_bytes (length bs) (from_be_bytes bs) ≡ bs
unfolding to_be_bytes from_be_bytes
to_be_bytes-from_be_bytes bs h =
    let e : length bs ≡ length bs + 0 = omega arith in
    rw e (to_be-from_be 0 0 bs [] h ∙ append-nil bs)

-- A little-endian integer of `n` bytes gives itself back.
pub from_le_bytes-to_le_bytes : (n x : ℕ) → x < 256 ^ n → from_le_bytes (to_le_bytes n x) ≡ x
unfolding from_le_bytes to_le_bytes
from_le_bytes-to_le_bytes zero x h = omega arith
from_le_bytes-to_le_bytes (suc n) x h =
    omega (arith, from_le_bytes-to_le_bytes n (x / 256) (omega (arith, pow-suc 256 n)))

from_be-eq-add : (a : ℕ) (bs : Bytes) → from_be a bs ≡ a * 256 ^ length bs + from_be 0 bs
unfolding from_be
from_be-eq-add a [] = omega arith
from_be-eq-add a (b ∷ bs) = omega (
  arith,
  from_be-eq-add (a * 256 + b) bs,
  from_be-eq-add (0 * 256 + b) bs,
  pow-suc 256 (length bs),
  ap (λ (t : ℕ). a * t) (pow-suc 256 (length bs)),
)

from_be-append : (a : ℕ) (xs ys : Bytes) → from_be a (xs ++ ys) ≡ from_be (from_be a xs) ys
unfolding from_be
from_be-append a [] ys = refl
from_be-append a (x ∷ xs) ys = from_be-append (a * 256 + x) xs ys

pub from_be_bytes-append :
    (xs ys : Bytes)
    → from_be_bytes (xs ++ ys) ≡ from_be_bytes xs * 256 ^ length ys + from_be_bytes ys
unfolding from_be_bytes
from_be_bytes-append xs ys = from_be-append 0 xs ys ∙ from_be-eq-add (from_be 0 xs) ys

pub from_be_bytes-lt : (bs : Bytes) → All IsByte bs → from_be_bytes bs < 256 ^ length bs
unfolding from_be_bytes from_be
from_be_bytes-lt [] h = omega arith
from_be_bytes-lt (b ∷ bs) h =
    grind (
      arith,
      from_be-eq-add (0 * 256 + b) bs,
      from_be_bytes-lt bs h.1,
      pow-suc 256 (length bs),
      h.0,
    )
