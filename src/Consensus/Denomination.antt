-- ===== src/Consensus/Denomination.antt =====
-- Qi denominations (crates/quai-consensus/src/qi.rs).
use quai_rust_sdk.Prelude.{
  ℕ, ◌<◌, ◌≡◌, List, [], ◌∷◌, leb, lt→not_leb, length, get_or, if◌then◌else◌, Result, ok, err,
}
use quai_rust_sdk.Consensus.Error.{TransactionError, invalid_field}

pub record Denomination : Type 0 where
  pub index : ℕ

-- Qits, by index.
abbrev pub values : List ℕ
values =
    1 ∷ 5 ∷ 10 ∷ 50 ∷ 100 ∷ 500 ∷ 1000 ∷ 5000 ∷ 10000 ∷ 20000 ∷ 100000 ∷ 1000000 ∷ 10000000
    ∷ 100000000 ∷ 1000000000 ∷ []

abbrev pub new : ℕ → Result TransactionError Denomination
new index =
    if leb (length values) index
    then err (invalid_field "denomination")
    else ok (record { index = index })

-- The Qits of an index. A private index is always below 15.
abbrev pub value_at : ℕ → ℕ
value_at i = get_or values i 0

abbrev pub value : Denomination → ℕ
value d = value_at d.index

-- What the private field guarantees.
abbrev pub IsDenomination : Denomination → Type 0
IsDenomination d = d.index < 15

pub new_lem : (i : ℕ) → i < 15 → new i ≡ ok (record { index = i })
new_lem i h = rw (lt→not_leb 15 i h)
