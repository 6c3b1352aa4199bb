-- ===== src/Consensus/Discount.antt =====
-- The windows in which conversions are held, and the discount of a batch
-- (crates/quai-consensus/src/conversion.rs). A U256 is a native number below 2 ^ 256.
pub mod Monotone
use quai_rust_sdk.Prelude.{
  ℕ, ◌+◌, ◌*◌, ◌/◌, ◌%◌, ◌^◌, ◌==◌, leb, ltb, Bool, ◌&&◌, ◌||◌, if◌then◌else◌, Option, none, some,
  min,
}
use quai_rust_sdk.Prelude.Words.{checked_add, checked_mul}

abbrev pub kawpow_fork_block : ℕ
kawpow_fork_block = 1171500

abbrev pub sha_equivalent_fork_block : ℕ
sha_equivalent_fork_block = 1755000

abbrev pub hold_interval : ℕ
hold_interval = 20000

unfoldable pub held_after : ℕ → ℕ → Bool
held_after prime_terminus fork =
    leb fork prime_terminus && ltb prime_terminus (fork + hold_interval)

unfoldable pub conversion_held : ℕ → Bool
unfolding held_after
conversion_held prime_terminus =
    held_after prime_terminus kawpow_fork_block
    || held_after prime_terminus sha_equivalent_fork_block

infixl 5 ◌>>=?◌
abbrev pub ◌>>=?◌ : Option ℕ → (ℕ → Option ℕ) → Option ℕ
none >>=? next = none
some a >>=? next = next a

unfoldable pub div_ceil : ℕ → ℕ → ℕ
div_ceil a b = a / b + (if a % b == 0 then 0 else 1)

-- `value^3`, checked.
unfoldable pub cube : ℕ → Option ℕ
cube value = checked_mul 256 value value >>=? λ square. checked_mul 256 square value

-- `u16::try_from` after the bound.
abbrev pub capped : ℕ → Option ℕ
capped value = if ltb (min value 9000) (2 ^ 16) then some (min value 9000) else none

unfoldable pub conversion_batch_discount_bps : ℕ → ℕ → Option ℕ
unfolding cube div_ceil
conversion_batch_discount_bps batch_total flow_amount =
    if flow_amount == 0
    then none
    else if leb batch_total flow_amount
    then some 20
    else checked_mul 256 flow_amount 10 >>=? λ tenfold.
        if ltb tenfold batch_total
        then some 9000
        else cube batch_total >>=? λ total. checked_mul 256 total 10 >>=? λ numerator.
            cube flow_amount >>=? λ denominator.
            checked_add 256 (div_ceil numerator denominator) 10 >>=? capped
