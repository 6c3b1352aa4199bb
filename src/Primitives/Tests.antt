-- ===== src/Primitives/Tests.antt =====
-- Runs of the primitives, and their theorems at concrete inputs.
mod Encodings
mod FixedPoints
use quai_rust_sdk.Prelude.{◌+◌, ◌*◌, ◌≡◌, refl, ◌↔◌, ◌∷◌, replicate, get_or, ok, err, [], arith}
use quai_rust_sdk.Primitives.Amount.{precision_loss, qi_unit, parse_units, parse_qi}
use quai_rust_sdk.Primitives.Amount.Exact.{IsParsed}
use quai_rust_sdk.Primitives.Amount.Complete.{parse_units_iff}
use quai_rust_sdk.Primitives.Shard.{
  paxos2, zone, ShardError, unknown_zone, invalid_identifier, from_byte, byte, from_str, zone_index,
  region_index, parent_region,
}
use quai_rust_sdk.Primitives.Shard.Names.{Identifies, from_str_iff}
use quai_rust_sdk.Primitives.Address.{quai, qi, Address, wrong_ledger, try_from, ledger}
use quai_rust_sdk.Primitives.Address.Scope.{IsLedger, try_from_iff}

unknown_byte : from_byte 0x13 ≡ err (unknown_zone 0x13)
unfolding from_byte
unknown_byte = refl

no_trimming : from_str " prime" ≡ err invalid_identifier
unfolding from_str
no_trimming = refl

from_str_iff_example :
    (from_str "Paxos Two" ≡ ok (zone paxos2)) ↔ Identifies "Paxos Two" (zone paxos2)
from_str_iff_example = from_str_iff "Paxos Two" (zone paxos2)

abbrev qi_address : Address
qi_address = record { bytes = 0x11 ∷ 0x80 ∷ replicate 18 0 }

wrong : try_from quai qi_address ≡ err (wrong_ledger quai qi)
unfolding try_from
wrong = refl

try_from_iff_example :
    (try_from qi qi_address ≡ ok (record { address = qi_address; zone = paxos2 })) ↔ (
      (qi_address ≡ qi_address)
      × (byte paxos2 ≡ get_or qi_address.bytes 0 0)
      × IsLedger qi (get_or qi_address.bytes 1 0))
try_from_iff_example =
    try_from_iff qi qi_address (record { address = qi_address; zone = paxos2 }) (omega arith)

-- "1.5" Qi is 1500 Qits, and "1.0005" has a digit too many.
parses_1_5 : parse_qi (49 ∷ 46 ∷ 53 ∷ []) ≡ ok 1500
unfolding parse_units
parses_1_5 = refl

loses_digit : parse_qi (49 ∷ 46 ∷ 48 ∷ 48 ∷ 48 ∷ 53 ∷ []) ≡ err precision_loss
unfolding parse_units
loses_digit = refl

-- "1.5000" loses nothing, and "-0" is zero.
parses_zeros : parse_qi (49 ∷ 46 ∷ 53 ∷ 48 ∷ 48 ∷ 48 ∷ []) ≡ ok 1500
unfolding parse_units
parses_zeros = refl

parses_minus_zero : parse_qi (45 ∷ 48 ∷ []) ≡ ok 0
unfolding parse_units
parses_minus_zero = refl

parse_units_iff_example :
    (parse_units (49 ∷ 46 ∷ 53 ∷ []) qi_unit ≡ ok 1500) ↔ IsParsed (49 ∷ 46 ∷ 53 ∷ []) qi_unit 1500
parse_units_iff_example = parse_units_iff (49 ∷ 46 ∷ 53 ∷ []) qi_unit 1500
