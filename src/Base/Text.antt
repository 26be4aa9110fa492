-- ===== src/Base/Text.antt =====
-- Texts as the Go source has them: UTF-8 bytes, `strings.Repeat`, `strings.HasPrefix`, and decimals.
use Prim.Native.Nat.{ℕ, zero, suc, ◌+◌, ◌/◌, ◌%◌}
use Prim.Native.Char.{code}
use Prim.Native.String.{String}
use mathlib.Core.Bool.{Bool}
use mathlib.Core.List.{[], ◌∷◌, ◌++◌}
use road.Base.Tests.{ltb, if◌then◌else◌}
use road.Base.Lists.{length, take}
use road.Base.Binary.{Bytes, bytes_eq}

-- The bytes of a code point.
abbrev pub utf8_char : ℕ → Bytes
utf8_char c =
    if ltb c 0x80
    then c ∷ []
    else if ltb c 0x800
    then (0xc0 + c / 64) ∷ (0x80 + c % 64) ∷ []
    else if ltb c 0x10000
    then (0xe0 + c / 4096) ∷ (0x80 + c / 64 % 64) ∷ (0x80 + c % 64) ∷ []
    else (0xf0 + c / 262144) ∷ (0x80 + c / 4096 % 64) ∷ (0x80 + c / 64 % 64) ∷ (0x80 + c % 64) ∷ []

-- The bytes of a literal of the source.
abbrev pub utf8 : String → Bytes
utf8 String.[] = []
utf8 (String.◌∷◌ c s) = utf8_char (code c) ++ utf8 s

unfoldable pub has_prefix : Bytes → Bytes → Bool
has_prefix prefix s = bytes_eq (take (length prefix) s) prefix

unfoldable pub repeat : Bytes → ℕ → Bytes
repeat text zero = []
repeat text (suc n) = text ++ repeat text n

-- The decimal digits of `n`, on fuel: a round divides by ten.
decimal_from : ℕ → ℕ → Bytes
decimal_from zero n = []
decimal_from (suc fuel) n =
    let front = decimal_from fuel (n / 10) in
    if ltb n 10 then (48 + n) ∷ [] else front ++ ((48 + n % 10) ∷ [])

-- `%d` of a number that is not negative.
unfoldable pub decimal : ℕ → Bytes
unfolding decimal_from
decimal n = decimal_from (suc n) n
