-- ===== src/Prelude/Words.antt =====
-- Checked arithmetic of machine words, whose width in bits is an argument.
use Prim.Native.Nat.{ℕ, ◌+◌, ◌*◌, ◌^◌, ◌<◌}
use mathlib.Core.Path.{◌≡◌}
use mathlib.Core.Option.{Option, none, some}
use mathlib.Core.Bool.{Bool, true, false}
use native.Mathlib.Omega.{arith}
use quai_rust_sdk.Prelude.Tests.{ltb, if◌then◌else◌}

-- `checked_add` of a w-bit integer.
abbrev pub checked_add : ℕ → ℕ → ℕ → Option ℕ
checked_add w a b = if ltb (a + b) (2 ^ w) then some (a + b) else none

pub checked_add-some :
    (w a b : ℕ) {c : ℕ} → checked_add w a b ≡ some c → (c ≡ a + b) × (a + b < 2 ^ w)
checked_add-some w a b h = ground arith

abbrev pub checked_mul : ℕ → ℕ → ℕ → Option ℕ
checked_mul w a b = if ltb (a * b) (2 ^ w) then some (a * b) else none

pub checked_mul-some : (w a b : ℕ) {c : ℕ} → checked_mul w a b ≡ some c → c ≡ a * b
checked_mul-some w a b {c = c} h = by_test (ltb (a * b) (2 ^ w)) h
  where
    by_test : (t : Bool) → (if t then some (a * b) else none) ≡ some c → c ≡ a * b
    by_test true e = cc
    by_test false e = cc
