-- ===== src/Primitives/Shard.antt =====
-- Regions, zones and shards with their identifiers (crates/quai-primitives/src/shard.rs).
pub mod Bytes
pub mod Names
use quai_rust_sdk.Prelude.{
  ℕ, ◌%◌, Bool, true, false, ◌||◌, List, [], ◌∷◌, ◌==◌, if◌then◌else◌, Result, ok, err,
}
use Prim.Native.String.{String}
use text.Mathlib.Text.{◌==◌ as str_eq}

pub data ShardError : Type 0 where
  unknown_zone : ℕ → ShardError
  unknown_region : ℕ → ShardError
  invalid_identifier : ShardError

pub data Region : Type 0 where
  cyprus paxos hydra : Region

pub data Zone : Type 0 where
  cyprus1 cyprus2 cyprus3 paxos1 paxos2 paxos3 hydra1 hydra2 hydra3 : Zone

pub data Shard : Type 0 where
  prime : Shard
  region : Region → Shard
  zone : Zone → Shard

pub record ShardMetadata : Type 0 where
  pub name : String
  pub nickname : String
  pub shard : String
  pub context : ℕ
  pub byte : String

-- An or-pattern of text literals.
abbrev pub one_of : String → List String → Bool
one_of text [] = false
one_of text (s ∷ ss) = str_eq text s || one_of text ss

-- `Region::from_index` and `Region::index`.
unfoldable pub region_from_index : ℕ → Result ShardError Region
region_from_index i =
    if i == 0
    then ok cyprus
    else if i == 1
    then ok paxos
    else if i == 2
    then ok hydra
    else err (unknown_region i)

unfoldable pub region_index : Region → ℕ
region_index cyprus = 0
region_index paxos = 1
region_index hydra = 2

unfoldable pub region_nickname : Region → String
region_nickname cyprus = "cyprus"
region_nickname paxos = "paxos"
region_nickname hydra = "hydra"

unfoldable pub region_encoded : Region → String
region_encoded cyprus = "0x0"
region_encoded paxos = "0x1"
region_encoded hydra = "0x2"

-- `Region::from_str`.
unfoldable pub region_from_str : String → Result ShardError Region
region_from_str value =
    if one_of value ("Cyprus" ∷ "cyprus" ∷ "region-0" ∷ "0x0" ∷ [])
    then ok cyprus
    else if one_of value ("Paxos" ∷ "paxos" ∷ "region-1" ∷ "0x1" ∷ [])
    then ok paxos
    else if one_of value ("Hydra" ∷ "hydra" ∷ "region-2" ∷ "0x2" ∷ [])
    then ok hydra
    else err invalid_identifier

-- `Zone::from_byte` and `Zone::byte`.
unfoldable pub from_byte : ℕ → Result ShardError Zone
from_byte b =
    if b == 0x00
    then ok cyprus1
    else if b == 0x01
    then ok cyprus2
    else if b == 0x02
    then ok cyprus3
    else if b == 0x10
    then ok paxos1
    else if b == 0x11
    then ok paxos2
    else if b == 0x12
    then ok paxos3
    else if b == 0x20
    then ok hydra1
    else if b == 0x21
    then ok hydra2
    else if b == 0x22
    then ok hydra3
    else err (unknown_zone b)

unfoldable pub byte : Zone → ℕ
byte cyprus1 = 0x00
byte cyprus2 = 0x01
byte cyprus3 = 0x02
byte paxos1 = 0x10
byte paxos2 = 0x11
byte paxos3 = 0x12
byte hydra1 = 0x20
byte hydra2 = 0x21
byte hydra3 = 0x22

-- The derived equality: the discriminants are distinct.
abbrev pub zone_eq : Zone → Zone → Bool
zone_eq a b = byte a == byte b

unfoldable pub zone_nickname : Zone → String
zone_nickname cyprus1 = "cyprus1"
zone_nickname cyprus2 = "cyprus2"
zone_nickname cyprus3 = "cyprus3"
zone_nickname paxos1 = "paxos1"
zone_nickname paxos2 = "paxos2"
zone_nickname paxos3 = "paxos3"
zone_nickname hydra1 = "hydra1"
zone_nickname hydra2 = "hydra2"
zone_nickname hydra3 = "hydra3"

unfoldable pub zone_encoded : Zone → String
zone_encoded cyprus1 = "0x00"
zone_encoded cyprus2 = "0x01"
zone_encoded cyprus3 = "0x02"
zone_encoded paxos1 = "0x10"
zone_encoded paxos2 = "0x11"
zone_encoded paxos3 = "0x12"
zone_encoded hydra1 = "0x20"
zone_encoded hydra2 = "0x21"
zone_encoded hydra3 = "0x22"

-- `Zone::region` and `Zone::index`; `& 0x0f` is `% 16`.
unfoldable pub parent_region : Zone → Region
parent_region cyprus1 = cyprus
parent_region cyprus2 = cyprus
parent_region cyprus3 = cyprus
parent_region paxos1 = paxos
parent_region paxos2 = paxos
parent_region paxos3 = paxos
parent_region hydra1 = hydra
parent_region hydra2 = hydra
parent_region hydra3 = hydra

unfoldable pub zone_index : Zone → ℕ
unfolding byte
zone_index z = byte z % 16

-- `Zone::from_str`.
unfoldable pub zone_from_str : String → Result ShardError Zone
zone_from_str value =
    if one_of value ("Cyprus One" ∷ "cyprus1" ∷ "zone-0-0" ∷ "0x00" ∷ [])
    then ok cyprus1
    else if one_of value ("Cyprus Two" ∷ "cyprus2" ∷ "zone-0-1" ∷ "0x01" ∷ [])
    then ok cyprus2
    else if one_of value ("Cyprus Three" ∷ "cyprus3" ∷ "zone-0-2" ∷ "0x02" ∷ [])
    then ok cyprus3
    else if one_of value ("Paxos One" ∷ "paxos1" ∷ "zone-1-0" ∷ "0x10" ∷ [])
    then ok paxos1
    else if one_of value ("Paxos Two" ∷ "paxos2" ∷ "zone-1-1" ∷ "0x11" ∷ [])
    then ok paxos2
    else if one_of value ("Paxos Three" ∷ "paxos3" ∷ "zone-1-2" ∷ "0x12" ∷ [])
    then ok paxos3
    else if one_of value ("Hydra One" ∷ "hydra1" ∷ "zone-2-0" ∷ "0x20" ∷ [])
    then ok hydra1
    else if one_of value ("Hydra Two" ∷ "hydra2" ∷ "zone-2-1" ∷ "0x21" ∷ [])
    then ok hydra2
    else if one_of value ("Hydra Three" ∷ "hydra3" ∷ "zone-2-2" ∷ "0x22" ∷ [])
    then ok hydra3
    else err invalid_identifier

unfoldable pub nickname : Shard → String
unfolding region_nickname zone_nickname
nickname prime = "prime"
nickname (region r) = region_nickname r
nickname (zone z) = zone_nickname z

unfoldable pub encoded : Shard → String
unfolding region_encoded zone_encoded
encoded prime = "0x"
encoded (region r) = region_encoded r
encoded (zone z) = zone_encoded z

-- The pair that `Shard::metadata` matches out: the name and the textual identifier.
unfoldable pub name_and_shard : Shard → String × String
name_and_shard prime = ("Prime", "prime")
name_and_shard (region cyprus) = ("Cyprus", "region-0")
name_and_shard (region paxos) = ("Paxos", "region-1")
name_and_shard (region hydra) = ("Hydra", "region-2")
name_and_shard (zone cyprus1) = ("Cyprus One", "zone-0-0")
name_and_shard (zone cyprus2) = ("Cyprus Two", "zone-0-1")
name_and_shard (zone cyprus3) = ("Cyprus Three", "zone-0-2")
name_and_shard (zone paxos1) = ("Paxos One", "zone-1-0")
name_and_shard (zone paxos2) = ("Paxos Two", "zone-1-1")
name_and_shard (zone paxos3) = ("Paxos Three", "zone-1-2")
name_and_shard (zone hydra1) = ("Hydra One", "zone-2-0")
name_and_shard (zone hydra2) = ("Hydra Two", "zone-2-1")
name_and_shard (zone hydra3) = ("Hydra Three", "zone-2-2")

unfoldable pub metadata : Shard → ShardMetadata
unfolding name_and_shard nickname encoded
metadata s = record {
  name = (name_and_shard s).0;
  nickname = nickname s;
  shard = (name_and_shard s).1;
  context = 2;
  byte = encoded s;
}

-- `Shard::from_str`: Prime, then a region, then a zone.
abbrev as_region_or : Result ShardError Region → Result ShardError Zone → Result ShardError Shard
as_region_or (ok r) z = ok (region r)
as_region_or (err _) (ok z) = ok (zone z)
as_region_or (err _) (err e) = err e

unfoldable pub from_str : String → Result ShardError Shard
unfolding region_from_str zone_from_str
from_str value =
    if one_of value ("0x" ∷ "prime" ∷ "Prime" ∷ [])
    then ok prime
    else as_region_or (region_from_str value) (zone_from_str value)
