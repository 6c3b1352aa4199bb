-- ===== src/Wallet/Selection/Denominate/Worth.antt =====
-- What an inventory and a list of outputs are worth, counted from denomination `k` on.
use quai_rust_sdk.Prelude.{
  ℕ, zero, suc, ◌+◌, ◌*◌, ◌/◌, ◌≤◌, ◌<◌, ◌≡◌, refl, ap, ◌≢◌, Bool, true, ◌&&◌, List, [], ◌∷◌, ◌++◌,
  ltb, leb, ◌==◌, if◌then◌else◌, all_below, all_below_sound, ltb→lt, length, set, arith,
}
use native.Mathlib.Decide.{dec_lt}
use quai_rust_sdk.Consensus.Denomination.{Denomination, value_at}
use quai_rust_sdk.Wallet.Selection.Denominate.{at}

-- A unit of denomination `j` counts its value if `j` is at least `k`.
unfoldable pub weight : ℕ → ℕ → ℕ
weight k j = if leb k j then value_at j else 0

unfoldable pub worth_from : ℕ → ℕ → List ℕ → ℕ
worth_from k j [] = 0
worth_from k j (c ∷ cs) = c * weight k j + worth_from k (suc j) cs

-- The Qits that an inventory holds in denominations `k` and above.
unfoldable pub worth : ℕ → List ℕ → ℕ
unfolding worth_from
worth k capacity = worth_from k 0 capacity

-- The same of a list of outputs.
unfoldable pub tally : ℕ → List Denomination → ℕ
tally k [] = 0
tally k (d ∷ ds) = weight k d.index + tally k ds

pub tally-append :
    (k : ℕ) (xs ys : List Denomination) → tally k (xs ++ ys) ≡ tally k xs + tally k ys
unfolding tally
tally-append k [] ys = omega arith
tally-append k (x ∷ xs) ys = omega (arith, tally-append k xs ys)

-- Replacing one entry changes the worth by the difference of the two.
worth_from-set :
    (k j n x : ℕ) (cs : List ℕ)
    → n < length cs
    → worth_from k j (set cs n x) + at cs n * weight k (j + n)
      ≡ worth_from k j cs + x * weight k (j + n)
unfolding worth_from
worth_from-set k j n x [] h = elim h [ ]
worth_from-set k j zero x (c ∷ cs) h = rw (add_zero j) (omega arith)
  where
    add_zero : (j : ℕ) → j + 0 ≡ j
    add_zero j = omega arith
worth_from-set k j (suc n) x (c ∷ cs) h =
    rw (shift j n) (omega (arith, worth_from-set k (suc j) n x cs))
  where
    shift : (j n : ℕ) → j + suc n ≡ suc j + n
    shift j n = omega arith

pub worth-set :
    (k n x : ℕ) (cs : List ℕ)
    → n < length cs
    → worth k (set cs n x) + at cs n * weight k n ≡ worth k cs + x * weight k n
unfolding worth
worth-set k n x cs h = rw (zero_add n) at (worth_from-set k 0 n x cs h)
  where
    zero_add : (n : ℕ) → 0 + n ≡ n
    zero_add n = omega arith

pub at-set_self : (cs : List ℕ) (n x : ℕ) → n < length cs → at (set cs n x) n ≡ x
at-set_self [] n x h = elim h [ ]
at-set_self (c ∷ cs) zero x h = refl
at-set_self (c ∷ cs) (suc n) x h = at-set_self cs n x (omega arith)

pub at-set_ne : (cs : List ℕ) (n m x : ℕ) → n ≢ m → at (set cs n x) m ≡ at cs m
at-set_ne [] n m x h = refl
at-set_ne (c ∷ cs) zero zero x h = absurd (h refl)
at-set_ne (c ∷ cs) zero (suc m) x h = refl
at-set_ne (c ∷ cs) (suc n) zero x h = refl
at-set_ne (c ∷ cs) (suc n) (suc m) x h = at-set_ne cs n m x (λ e. h (ap suc e))

-- Each denomination is a multiple of the next smaller, by a factor of at most ten.
unfoldable pub ratio : ℕ → ℕ
ratio j = value_at (suc j) / value_at j

ratio_holds : ℕ → Bool
unfolding ratio
ratio_holds j = ratio j * value_at j == value_at (suc j) && (ltb 0 (ratio j) && ltb (ratio j) 11)

pub ratio_lem :
    (j : ℕ) → j < 14 → (ratio j * value_at j ≡ value_at (suc j)) × (0 < ratio j) × (ratio j < 11)
ratio_lem j h = spread j (all_below_sound 14 ratio_holds table j h)
  where
    table : all_below 14 ratio_holds ≡ true
    table = unfold all_below ratio_holds ratio in refl

    spread :
        (j : ℕ)
        → ratio_holds j ≡ true
        → (ratio j * value_at j ≡ value_at (suc j)) × (0 < ratio j) × (ratio j < 11)
    spread j e = unfold ratio_holds in ground arith

pub value_at-pos : (j : ℕ) → j < 15 → 0 < value_at j
value_at-pos j h =
    ltb_lem (all_below_sound 15 (λ j. ltb 0 (value_at j)) (unfold all_below in refl) j h)
  where
    ltb_lem : ltb 0 (value_at j) ≡ true → 0 < value_at j
    ltb_lem e = ground arith

worth_from-zero :
    (k j : ℕ) (cs : List ℕ) → ((l : ℕ) → k ≤ j + l → at cs l ≡ 0) → worth_from k j cs ≡ 0
unfolding worth_from
worth_from-zero k j [] h = refl
worth_from-zero k j (c ∷ cs) h =
    omega (arith, head, worth_from-zero k (suc j) cs (λ l p. h (suc l) (omega arith)))
  where
    head : c * weight k j ≡ 0
    head = elim (dec_lt j k) [
      | yes below ↦ unfold weight in ground arith
      | no above ↦ rw (h 0 (omega arith)) (omega arith)
    ]

-- An inventory with nothing from `k` on is worth nothing there.
pub worth-zero : (k : ℕ) (cs : List ℕ) → ((l : ℕ) → k ≤ l → at cs l ≡ 0) → worth k cs ≡ 0
unfolding worth
worth-zero k cs h = worth_from-zero k 0 cs (λ l p. h l (omega arith))

pub at-beyond : (cs : List ℕ) (l : ℕ) → length cs ≤ l → at cs l ≡ 0
at-beyond [] l h = refl
at-beyond (c ∷ cs) zero h = absurd (omega arith)
at-beyond (c ∷ cs) (suc l) h = at-beyond cs l (omega arith)

pub weight_self : (k j : ℕ) → k ≤ j → weight k j ≡ value_at j
unfolding weight
weight_self k j h = ground arith

pub value_at-lt : (i j : ℕ) → i < j → j < 15 → value_at i < value_at j
value_at-lt i j h b = ltb→lt _ _ (all_below_sound j (row j) (all_below_sound 15 rows table j b) i h)
  where
    row : ℕ → ℕ → Bool
    row j i = ltb (value_at i) (value_at j)

    rows : ℕ → Bool
    rows j = all_below j (row j)

    table : all_below 15 rows ≡ true
    table = unfold all_below in refl
