-- ===== src/Common/Bytes.antt =====
-- The little-endian bytes of an integer, and the tests of `char` and `str` that the code uses.
use Prim.Native.Nat.{ℕ, zero, suc, ◌+◌, ◌*◌, ◌/◌, ◌%◌, ◌^◌, ◌<◌}
use Prim.Native.Char.{Char, code}
use Prim.Native.String.{String}
use native.Mathlib.Nat.{pow-suc}
use mathlib.Core.Path.{◌≡◌, subst}
use mathlib.Core.Bool.{Bool, true, ◌&&◌, ◌||◌}
use mathlib.Core.List.{List, [], ◌∷◌}
use native.Mathlib.Omega.{arith}
use tx_proof.Common.Tests.{leb, ◌==◌}

-- `to_le_bytes` of an integer of so many bytes, and `from_le_bytes`
unfoldable pub to_le_bytes : ℕ → ℕ → List ℕ
to_le_bytes zero n = []
to_le_bytes (suc width) n = n % 256 ∷ to_le_bytes width (n / 256)

unfoldable pub from_le_bytes : List ℕ → ℕ
from_le_bytes [] = 0
from_le_bytes (byte ∷ bytes) = byte + 256 * from_le_bytes bytes

quotient_lt : (bound n : ℕ) → n < bound * 256 → n / 256 < bound
quotient_lt bound n h = omega arith

-- Decoding inverts encoding for every number that fits the width.
pub from_le-to_le : (width n : ℕ) → n < 256 ^ width → from_le_bytes (to_le_bytes width n) ≡ n
unfolding from_le_bytes to_le_bytes
from_le-to_le zero n h = omega arith
from_le-to_le (suc width) n h =
    let bounded : n < 256 ^ width * 256 = subst (λ bound. n < bound) (pow-suc 256 width) h in
    omega (arith, from_le-to_le width (n / 256) (quotient_lt (256 ^ width) n bounded))

abbrev between : ℕ → ℕ → ℕ → Bool
between low n high = leb low n && leb n high

-- `char::is_whitespace`, the Unicode property `White_Space`
abbrev pub is_whitespace : Char → Bool
is_whitespace c =
    between 9 (code c) 13
    || code c == 32
    || code c == 133
    || code c == 160
    || code c == 5760
    || between 8192 (code c) 8202
    || between 8232 (code c) 8233
    || code c == 8239
    || code c == 8287
    || code c == 12288

-- `u8::is_ascii_lowercase`
abbrev pub is_ascii_lowercase : Char → Bool
is_ascii_lowercase c = between 97 (code c) 122

abbrev pub all_chars : (Char → Bool) → String → Bool
all_chars test String.[] = true
all_chars test (String.◌∷◌ c text) = test c && all_chars test text

-- `value.trim().is_empty()`
abbrev pub is_blank : String → Bool
is_blank text = all_chars is_whitespace text
