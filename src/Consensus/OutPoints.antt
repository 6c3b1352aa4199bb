-- ===== src/Consensus/OutPoints.antt =====
-- References to transaction outputs (crates/quai-consensus/src/qi.rs).
use quai_rust_sdk.Prelude.{
  ℕ, ◌==◌, ◌≡◌, ◌≢◌, refl, ◌↔◌, subst, arith, All, false_iff, or-false, Bool, true, false, ◌&&◌,
  ◌||◌, List, [], ◌∷◌,
}
use quai_rust_sdk.Primitives.Hash.{bytes_eq, bytes_eq_refl, bytes_eq_iff}

-- `transaction_hash` is 32 bytes.
pub record OutPoint : Type 0 where
  pub transaction_hash : List ℕ
  pub index : ℕ

abbrev pub outpoint_eq : OutPoint → OutPoint → Bool
outpoint_eq a b = bytes_eq a.transaction_hash b.transaction_hash && a.index == b.index

unfoldable pub contains : List OutPoint → OutPoint → Bool
contains [] o = false
contains (s ∷ ss) o = outpoint_eq s o || contains ss o

pub outpoint_eq_iff : (a b : OutPoint) → (outpoint_eq a b ≡ true) ↔ (a ≡ b)
outpoint_eq_iff a b = (forth, back)
  where
    forth : outpoint_eq a b ≡ true → a ≡ b
    forth h =
        let hashes : bytes_eq a.transaction_hash b.transaction_hash ≡ true = ground arith in
        let indices : a.index ≡ b.index = ground arith in
        cc ((bytes_eq_iff a.transaction_hash b.transaction_hash).0 hashes)

    back : a ≡ b → outpoint_eq a b ≡ true
    back e =
        subst (λ c. outpoint_eq a c ≡ true) e (ground (arith, bytes_eq_refl a.transaction_hash))

pub contains-false_iff :
    (seen : List OutPoint) (o : OutPoint) → (contains seen o ≡ false) ↔ All (λ s. s ≢ o) seen
unfolding contains
contains-false_iff [] o = (λ _. tt, λ _. refl)
contains-false_iff (s ∷ ss) o =
    let (split, join) = or-false (outpoint_eq s o) (contains ss o) in
    let (differs, not_same) = false_iff (outpoint_eq s o) (outpoint_eq_iff s o) in
    let (rest, absent) = contains-false_iff ss o in
    (λ h. (differs (split h).0, rest (split h).1), λ h. join (not_same h.0, absent h.1))
