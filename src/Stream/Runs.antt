-- ===== src/Stream/Runs.antt =====
-- Streams that move one byte at a time, and the theorems at them.
use cczoecpp.Stream.{Reply, got, stop}
use cczoecpp.Common.{ℕ, zero, suc, [], ◌∷◌}

-- A stream of `s` bytes that moves one of them at a time.
abbrev one_byte : ℕ → ℕ → Reply × ℕ
one_byte n zero = (stop 0, 0)
one_byte zero (suc s) = (stop 0, suc s)
one_byte (suc n) (suc s) = (got (65 ∷ []), s)
