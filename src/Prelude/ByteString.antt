-- ===== src/Prelude/ByteString.antt =====
-- Byte strings, and the test of `sp_std::str::from_utf8`.
use Prim.Native.Nat.{ℕ, ◌-◌}
use mathlib.Core.Bool.{Bool, ◌&&◌}
use mathlib.Core.List.{List, [], ◌∷◌}
use native.Mathlib.Decide.{ℕ_discrete}
use hackathon_parity_eu.Prelude.Tests.{ltb, leb, ◌==◌, if◌then◌else◌}
use hackathon_parity_eu.Prelude.Map.{Key}

abbrev pub Bytes : Type 0
Bytes = List ℕ

abbrev within : ℕ → ℕ → ℕ → Bool
within lo hi b = leb lo b && leb b hi

-- The range of the second byte, by the first byte of a sequence of three or four.
second_low : ℕ → ℕ
second_low b = if b == 0xe0 then 0xa0 else if b == 0xf0 then 0x90 else 0x80

second_high : ℕ → ℕ
second_high b = if b == 0xed then 0x9f else if b == 0xf4 then 0x8f else 0xbf

-- The number of bytes of a sequence by its first byte; 0 for a byte that starts none.
sequence_length : ℕ → ℕ
sequence_length b =
    if ltb b 0x80
    then 1
    else if within 0xc2 0xdf b
    then 2
    else if within 0xe0 0xef b
    then 3
    else if within 0xf0 0xf4 b
    then 4
    else 0

-- The state of the scan: the continuation bytes that are due, and the range of the next one.
scan : ℕ → ℕ → ℕ → Bytes → Bool
unfolding second_low second_high sequence_length
scan due lo hi [] = due == 0
scan due lo hi (b ∷ bs) =
    let n = sequence_length b in
    let rest_of =
      scan (if due == 0 then n - 1 else due - 1) (if due == 0 then second_low b else 0x80)
        (if due == 0 then second_high b else 0xbf) bs in
    (if due == 0 then leb 1 n else within lo hi b) && rest_of

-- `from_utf8(bytes).is_ok()`
unfoldable pub is_utf8 : Bytes → Bool
unfolding scan
is_utf8 bs = scan 0 0 0 bs

unfoldable pub bytes_discrete : Discrete Bytes
bytes_discrete = hlevel ℕ_discrete

unfoldable pub bytes_pair_discrete : Discrete (Bytes × Bytes)
bytes_pair_discrete = hlevel ℕ_discrete

instance abbrev pub bytes_key : Key Bytes
bytes_key = record { dec_eq = bytes_discrete }

instance abbrev pub bytes_pair_key : Key (Bytes × Bytes)
bytes_pair_key = record { dec_eq = bytes_pair_discrete }
