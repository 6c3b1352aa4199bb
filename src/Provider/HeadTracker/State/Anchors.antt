-- ===== src/Provider/HeadTracker/State/Anchors.antt =====
-- The persisted anchors are read back as they were (crates/quai-provider/src/head_tracker/state.rs).
use quai_rust_sdk.Prelude.{
  ℕ, suc, ◌+◌, ◌*◌, ◌^◌, ◌<◌, ◌≡◌, refl, ◌∙◌, ap, Bool, false, ◌||◌, not, ◌&&◌, ◌==◌, List, [], ◌∷◌,
  ◌++◌, length, length-append, All, arith, Bool-cases, inl, inr, ok, Result, ◌>>◌, reject_if,
}
use quai_rust_sdk.Primitives.Hash.{Hash, bytes_eq, zero_hash}
use quai_rust_sdk.Provider.Types.{ProviderError, invalid_request, BlockReference}
use quai_rust_sdk.Provider.HeadTracker.{contains_hash}
use quai_rust_sdk.Provider.HeadTracker.Chain.{IsAnchor, IsAbove, IsChain}
use quai_rust_sdk.Provider.HeadTracker.State.{
  take, drop, to_be_bytes, onto, export_anchors, is_bad_anchor, breaks, anchor_of, restore, front,
}
use quai_rust_sdk.Primitives.Bytes.{
  take-append, drop-append, length-to_be_bytes, from_be_bytes-to_be_bytes,
}
use quai_rust_sdk.Primitives.Hash.{bytes_eq_refl}

-- The sizes that Rust's types give: a hash is 32 bytes, and a number a u64.
abbrev pub IsReference : BlockReference → Type 0
IsReference a = (length a.hash ≡ 32) × (a.number < 2 ^ 64)

append_assoc : (xs ys zs : List ℕ) → (xs ++ (ys ++ zs)) ≡ ((xs ++ ys) ++ zs)
append_assoc [] ys zs = refl
append_assoc (x ∷ xs) ys zs = ap (λ rest. x ∷ rest) (append_assoc xs ys zs)

-- One entry is read as its anchor, and the others stand behind it.
entry_lem :
    (a : BlockReference) (more : List ℕ)
    → IsReference a
    → (anchor_of (take 40 (to_be_bytes 8 a.number ++ (a.hash ++ more))) ≡ a)
      × (drop 40 (to_be_bytes 8 a.number ++ (a.hash ++ more)) ≡ more)
entry_lem a more (size, bound) = rw (append_assoc (to_be_bytes 8 a.number) a.hash more) (
  ap anchor_of (take-append 40 (to_be_bytes 8 a.number ++ a.hash) more whole) ∙ anchor_lem,
  drop-append 40 (to_be_bytes 8 a.number ++ a.hash) more whole,
)
  where
    whole : length (to_be_bytes 8 a.number ++ a.hash) ≡ 40
    whole =
        omega (arith, length-append (to_be_bytes 8 a.number) a.hash, length-to_be_bytes 8 a.number)

    anchor_lem : anchor_of (to_be_bytes 8 a.number ++ a.hash) ≡ a
    anchor_lem =
        rw
          (
            take-append 8 (to_be_bytes 8 a.number) a.hash (length-to_be_bytes 8 a.number),
            drop-append 8 (to_be_bytes 8 a.number) a.hash (length-to_be_bytes 8 a.number),
            from_be_bytes-to_be_bytes 8 a.number (omega arith),
          )
          refl

-- The part of a chain that a loop has read is a chain.
pub onto-IsChain :
    (genesis : Hash) (xs after : List BlockReference)
    → IsChain genesis (onto xs after)
    → IsChain genesis after
unfolding onto
onto-IsChain genesis [] after h = h
onto-IsChain genesis (x ∷ xs) after h = (onto-IsChain genesis xs (x ∷ after) h).3

pub trusted :
    (genesis : Hash) (a : BlockReference)
    → IsAnchor genesis a
    → (a.number == 0 && not (bytes_eq a.hash genesis)) ≡ false
trusted genesis a (nonzero, at_zero) = elim (Bool-cases (a.number == 0)) [
  | inl e ↦ rw e (rw (at_zero (ground arith)) (rw (bytes_eq_refl genesis) refl))
  | inr e ↦ rw e refl
]

follows :
    (a : BlockReference) (after : List BlockReference)
    → a.number < 2 ^ 64
    → IsAbove a after
    → breaks after a.number ≡ false
follows a [] bound above = refl
follows a (b ∷ after) bound above = ground arith

good_anchor :
    (genesis : Hash) (a : BlockReference) (after : List BlockReference)
    → IsReference a
    → IsChain genesis (a ∷ after)
    → is_bad_anchor genesis after a ≡ false
good_anchor genesis a after (size, bound) (anchor, above, fresh, rest) =
    all_false (bytes_eq a.hash zero_hash) (contains_hash after a.hash)
      (a.number == 0 && not (bytes_eq a.hash genesis)) (breaks after a.number) anchor.0 fresh
      (trusted genesis a anchor) (follows a after bound above)
  where
    all_false :
        (p q r s : Bool)
        → p ≡ false
        → q ≡ false
        → r ≡ false
        → s ≡ false
        → (p || (q || (r || s))) ≡ false
    all_false p q r s hp hq hr hs = rw (hp, hq, hr, hs) refl

abbrev step :
    Hash
    → ℕ
    → List BlockReference
    → BlockReference
    → List ℕ
    → Result ProviderError (List BlockReference)
step genesis count after a more =
    reject_if (is_bad_anchor genesis after a) invalid_request
    >> restore genesis count more (a ∷ after)

restore_round :
    (genesis : Hash) (count : ℕ) (bytes : List ℕ) (after : List BlockReference) (a : BlockReference)
    (more : List ℕ)
    → anchor_of (take 40 bytes) ≡ a
    → drop 40 bytes ≡ more
    → is_bad_anchor genesis after a ≡ false
    → restore genesis (suc count) bytes after ≡ restore genesis count more (a ∷ after)
restore_round genesis count bytes after a more read behind good =
    opened
    ∙ ap (λ a. step genesis count after a (drop 40 bytes)) read
    ∙ ap (λ more. step genesis count after a more) behind
    ∙ ap (λ b. reject_if b invalid_request >> restore genesis count more (a ∷ after)) good
  where
    opened :
        restore genesis (suc count) bytes after
        ≡ step genesis count after (anchor_of (take 40 bytes)) (drop 40 bytes)
    opened = unfold restore in refl

pub restore_lem :
    (genesis : Hash) (xs after : List BlockReference)
    → All IsReference xs
    → IsChain genesis (onto xs after)
    → restore genesis (length xs) (export_anchors xs) after ≡ ok (onto xs after)
unfolding restore onto export_anchors
restore_lem genesis [] after sizes chain = refl
restore_lem genesis (a ∷ xs) after sizes chain =
    let (read, behind) = entry_lem a (export_anchors xs) sizes.0 in
    restore_round genesis (length xs) (export_anchors (a ∷ xs)) after a (export_anchors xs) read
      behind (good_anchor genesis a after sizes.0 (onto-IsChain genesis xs (a ∷ after) chain))
    ∙ restore_lem genesis xs (a ∷ after) sizes.1 chain

pub front-IsAnchor :
    (genesis : Hash) (a : BlockReference) (bs : List BlockReference)
    → IsChain genesis (a ∷ bs)
    → IsAnchor genesis (front a bs)
unfolding front
front-IsAnchor genesis a [] chain = chain.0
front-IsAnchor genesis a (b ∷ bs) chain = front-IsAnchor genesis b bs chain.3

pub onto_twice : (xs ys zs : List BlockReference) → onto (onto xs ys) zs ≡ onto ys (xs ++ zs)
unfolding onto
onto_twice [] ys zs = refl
onto_twice (x ∷ xs) ys zs = onto_twice xs (x ∷ ys) zs

pub length-onto : (xs ys : List BlockReference) → length (onto xs ys) ≡ length xs + length ys
unfolding onto
length-onto [] ys = omega arith
length-onto (x ∷ xs) ys = omega (arith, length-onto xs (x ∷ ys))

pub All-onto :
    (xs ys : List BlockReference)
    → All IsReference xs
    → All IsReference ys
    → All IsReference (onto xs ys)
unfolding onto
All-onto [] ys h k = k
All-onto (x ∷ xs) ys h k = All-onto xs (x ∷ ys) h.1 (h.0, k)

pub length-export_anchors :
    (xs : List BlockReference) → All IsReference xs → length (export_anchors xs) ≡ length xs * 40
unfolding export_anchors
length-export_anchors [] h = refl
length-export_anchors (x ∷ xs) h = omega (
  arith,
  h.0.0,
  length-append (to_be_bytes 8 x.number) (x.hash ++ export_anchors xs),
  length-append x.hash (export_anchors xs),
  length-to_be_bytes 8 x.number,
  length-export_anchors xs h.1,
)
