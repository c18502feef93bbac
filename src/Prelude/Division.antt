-- ===== src/Prelude/Division.antt =====
-- Division on the native numbers, for automation.
use native.Mathlib.Nat.{div-le_self, div-mul-le_self, lt-div-mul-add}
use native.Mathlib.Omega.{arith}

-- A quotient is at most the dividend, and lies within one divisor of it.
pub ruleset division = (arith, div-le_self, div-mul-le_self, lt-div-mul-add)
