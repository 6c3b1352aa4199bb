-- ===== src/Primitives/Shard/Bytes.antt =====
-- The byte encoding of zones is a bijection onto the nine published bytes.
use quai_rust_sdk.Prelude.{
  ℕ, ◌+◌, ◌*◌, ◌≡◌, refl, sym, ap, ◌∙◌, ◌↔◌, arith, ==_iff, true, ok, err, ok-injective,
}
use quai_rust_sdk.Primitives.Shard.{
  Zone, cyprus1, ShardError, unknown_zone, from_byte, byte, parent_region, region_index, zone_index,
  zone_eq,
}

from_byte-byte : (z : Zone) → from_byte (byte z) ≡ ok z
unfolding from_byte byte
from_byte-byte cyprus1 = refl
from_byte-byte _ = refl

byte-from_byte : (b : ℕ) (z : Zone) → from_byte b ≡ ok z → byte z ≡ b
unfolding from_byte byte
byte-from_byte b z h = ground arith

-- A byte decodes to a zone exactly when it is the zone's own byte, and an unknown byte is reported.
pub from_byte_iff :
    (b : ℕ) (z : Zone)
    → ((from_byte b ≡ ok z) ↔ (byte z ≡ b))
      × ((e : ShardError) → from_byte b ≡ err e → e ≡ unknown_zone b)
from_byte_iff b z = ((byte-from_byte b z, λ h. rw h at (from_byte-byte z)), unknown)
  where
    unknown : (e : ShardError) → from_byte b ≡ err e → e ≡ unknown_zone b
    unknown e h = unfold from_byte in ground arith

-- The high nibble is the region and the low nibble the zone's index in it.
pub byte_nibbles : (z : Zone) → byte z ≡ 16 * region_index (parent_region z) + zone_index z
unfolding byte parent_region region_index zone_index
byte_nibbles cyprus1 = refl
byte_nibbles _ = refl

pub byte_injective : (a b : Zone) → byte a ≡ byte b → a ≡ b
byte_injective a b h = ok-injective (sym (from_byte-byte a) ∙ ap from_byte h ∙ from_byte-byte b)

pub zone_eq_iff : (a b : Zone) → (zone_eq a b ≡ true) ↔ (a ≡ b)
zone_eq_iff a b = (
  λ h. byte_injective a b ((==_iff (byte a) (byte b)).0 h),
  λ e. (==_iff (byte a) (byte b)).1 (ap byte e),
)
