-- ===== src/Primitives/Shard/Names.antt =====
-- Every published identifier of a shard parses to it, and nothing else does.
use quai_rust_sdk.Prelude.{
  ◌≡◌, refl, ◌↔◌, ◌⊎◌, inl, inr, Result, ok, err, true, List, [], ◌∷◌, if◌then◌else◌, Bool-cases,
  sym, subst, ok-injective,
}
use Prim.Native.String.{String}
use text.Mathlib.Text.{◌==◌ as str_eq}
use text.Mathlib.TextEquality.{eq_iff}
use quai_rust_sdk.Primitives.Shard.{
  Region, cyprus, paxos, hydra, Zone, cyprus1, cyprus2, cyprus3, paxos1, paxos2, paxos3, hydra1,
  hydra2, hydra3, Shard, prime, region, zone, ShardError, invalid_identifier, one_of,
  region_from_str, zone_from_str, as_region_or, from_str, metadata,
}

abbrev Among : String → List String → Type 0
Among t [] = ⊥
Among t (s ∷ ss) = (t ≡ s) ⊎ Among t ss

one_of_lem : (t : String) (ss : List String) → one_of t ss ≡ true → Among t ss
one_of_lem t [] h = cc
one_of_lem t (s ∷ ss) h = elim (Bool-cases (str_eq t s)) [
  | inl e ↦ inl ((eq_iff t s).0 e)
  | inr e ↦ inr (one_of_lem t ss (rw e at h))
]

-- The four identifiers of a shard: its name, nickname, hierarchy label and encoded value.
abbrev pub Identifies : String → Shard → Type 0
Identifies text s =
    (text ≡ (metadata s).name)
    ⊎ (text ≡ (metadata s).nickname)
    ⊎ (text ≡ (metadata s).shard)
    ⊎ (text ≡ (metadata s).byte)

-- The identifiers in the order of a parser's arm.
abbrev identifiers : Shard → List String
identifiers s =
    (metadata s).name ∷ (metadata s).nickname ∷ (metadata s).shard ∷ (metadata s).byte ∷ []

from_identifiers : (text : String) (s : Shard) → Among text (identifiers s) → Identifies text s
from_identifiers text s (inl e) = inl e
from_identifiers text s (inr (inl e)) = inr (inl e)
from_identifiers text s (inr (inr (inl e))) = inr (inr (inl e))
from_identifiers text s (inr (inr (inr (inl e)))) = inr (inr (inr e))
from_identifiers text s (inr (inr (inr (inr e)))) = absurd e

-- One arm of a parser's ladder over a type whose values are shards.
arm :
    {A : Type 0} (embed : A → Shard) (text : String) (a s : A) (rest : Result ShardError A)
    → (rest ≡ ok s → Identifies text (embed s))
    → (if one_of text (identifiers (embed a)) then ok a else rest) ≡ ok s
    → Identifies text (embed s)
arm embed text a s rest later h = elim (Bool-cases (one_of text (identifiers (embed a)))) [
  | inl e ↦
      subst (λ x. Identifies text (embed x)) (ok-injective (rw e at h))
        (from_identifiers text (embed a) (one_of_lem text (identifiers (embed a)) e))
  | inr e ↦ later (rw e at h)
]

region_from_str-Identifies :
    (text : String) (r : Region) → region_from_str text ≡ ok r → Identifies text (region r)
unfolding region_from_str metadata
region_from_str-Identifies text r =
    arm region text cyprus r _
      (arm region text paxos r _ (arm region text hydra r (err invalid_identifier) (λ h. cc)))

zone_from_str-Identifies :
    (text : String) (z : Zone) → zone_from_str text ≡ ok z → Identifies text (zone z)
unfolding zone_from_str metadata
zone_from_str-Identifies text z = arm zone text cyprus1 z _ (
    arm zone text cyprus2 z _ (
      arm zone text cyprus3 z _ (
        arm zone text paxos1 z _ (
          arm zone text paxos2 z _ (
            arm zone text paxos3 z _ (
              arm zone text hydra1 z _ (
                arm zone text hydra2 z _
                  (arm zone text hydra3 z (err invalid_identifier) (λ h. cc)))))))))

prime_lem :
    (text : String) → one_of text ("0x" ∷ "prime" ∷ "Prime" ∷ []) ≡ true → Identifies text prime
unfolding metadata
prime_lem text h = pick (one_of_lem text ("0x" ∷ "prime" ∷ "Prime" ∷ []) h)
  where
    pick : Among text ("0x" ∷ "prime" ∷ "Prime" ∷ []) → Identifies text prime
    pick (inl e) = inr (inr (inr e))
    pick (inr (inl e)) = inr (inl e)
    pick (inr (inr (inl e))) = inl e
    pick (inr (inr (inr e))) = absurd e

level_lem :
    (text : String) (s : Shard) (r : Result ShardError Region) (z : Result ShardError Zone)
    → r ≡ region_from_str text
    → z ≡ zone_from_str text
    → as_region_or r z ≡ ok s
    → Identifies text s
level_lem text s (ok r) z er ez h =
    subst (Identifies text) (ok-injective h) (region_from_str-Identifies text r (sym er))
level_lem text s (err _) (ok z) er ez h =
    subst (Identifies text) (ok-injective h) (zone_from_str-Identifies text z (sym ez))
level_lem text s (err _) (err e) er ez h = cc

from_str-Identifies : (text : String) (s : Shard) → from_str text ≡ ok s → Identifies text s
unfolding from_str
from_str-Identifies text s h = elim (Bool-cases (one_of text ("0x" ∷ "prime" ∷ "Prime" ∷ []))) [
  | inl e ↦ subst (Identifies text) (ok-injective (rw e at h)) (prime_lem text e)
  | inr e ↦ level_lem text s _ _ refl refl (rw e at h)
]

from_str-name : (s : Shard) → from_str (metadata s).name ≡ ok s
unfolding from_str metadata
from_str-name prime = refl
from_str-name (region cyprus) = refl
from_str-name (region _) = refl
from_str-name (zone cyprus1) = refl
from_str-name (zone _) = refl

from_str-nickname : (s : Shard) → from_str (metadata s).nickname ≡ ok s
unfolding from_str metadata
from_str-nickname prime = refl
from_str-nickname (region cyprus) = refl
from_str-nickname (region _) = refl
from_str-nickname (zone cyprus1) = refl
from_str-nickname (zone _) = refl

from_str-shard : (s : Shard) → from_str (metadata s).shard ≡ ok s
unfolding from_str metadata
from_str-shard prime = refl
from_str-shard (region cyprus) = refl
from_str-shard (region _) = refl
from_str-shard (zone cyprus1) = refl
from_str-shard (zone _) = refl

from_str-byte : (s : Shard) → from_str (metadata s).byte ≡ ok s
unfolding from_str metadata
from_str-byte prime = refl
from_str-byte (region cyprus) = refl
from_str-byte (region _) = refl
from_str-byte (zone cyprus1) = refl
from_str-byte (zone _) = refl

Identifies-from_str : (text : String) (s : Shard) → Identifies text s → from_str text ≡ ok s
Identifies-from_str text s (inl e) = rw e (from_str-name s)
Identifies-from_str text s (inr (inl e)) = rw e (from_str-nickname s)
Identifies-from_str text s (inr (inr (inl e))) = rw e (from_str-shard s)
Identifies-from_str text s (inr (inr (inr e))) = rw e (from_str-byte s)

-- A text parses to a shard exactly when it is one of the shard's four published identifiers.
pub from_str_iff : (text : String) (s : Shard) → (from_str text ≡ ok s) ↔ Identifies text s
from_str_iff text s = (from_str-Identifies text s, Identifies-from_str text s)
