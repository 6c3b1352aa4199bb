-- ===== src/Consensus/Wire/Agreement.antt =====
-- The scan agrees with the strict reader on the bytes that the walk accepts.
use quai_rust_sdk.Prelude.{
  ℕ, zero, suc, ◌+◌, ◌/◌, ◌%◌, ◌≤◌, ◌==◌, ◌≡◌, refl, sym, ap, subst, ◌∙◌, inl, inr, arith, leb, ltb,
  leb→le, le→not_ltb, Bool, true, false, ◌&&◌, ◌||◌, List, [], ◌∷◌, length, Option, none, some, ok,
  ok-injective, ◌>>=◌, >>=_iff, reject_if_iff, if-ok_iff, if_false, ==_iff, ==_iff,
}
use quai_rust_sdk.Prelude.Words.{checked_add}
use quai_rust_sdk.Primitives.Bytes.{drop}
use quai_rust_sdk.Consensus.Error.{invalid_encoding}
use quai_rust_sdk.Consensus.Qi.{max_transaction_bytes}
use quai_rust_sdk.Consensus.Wire.{
  WireKind, transaction, Field, varint_loop, skip, read_part, read_value, read_field, preflight,
}
use quai_rust_sdk.Consensus.Wire.Fields.{if_ok, read_field-IsShorter}
use quai_rust_sdk.Consensus.Wire.Messages.{Walked, done, passed, entered, preflight-Walked_iff}
use quai_rust_sdk.Consensus.Wire.Scan.{
  Skip, skip_varint, skip_part, skip_total, skip_value, State, after_skip, after_key, scan_round,
  go_on, scan, has_transaction_inputs,
}
use quai_rust_sdk.Consensus.Wire.Varints.{lenient-varint_loop}

-- The field is one of the transaction's inputs.
abbrev pub holds_inputs : ℕ → Option (List ℕ) → Bool
holds_inputs tag none = false
holds_inputs tag (some part) = tag == 15

or_no : (x : Bool) → x ≡ (x || false)
or_no true = refl
or_no false = refl

and_yes : (b : Bool) → (b && true) ≡ b
and_yes true = refl
and_yes false = refl

-- What the scan does behind a key, when the strict reader reads the field `f` there.
abbrev Agrees : ℕ → ℕ → Bool → List ℕ → Field → Type 0
Agrees tag wire_type x rest f =
    after_skip rest (skip_value tag wire_type 0 x rest)
    ≡ some (record { bytes = f.rest; depth = 0; inputs = x || holds_inputs f.tag f.part })

length-drop : (k : ℕ) (xs : List ℕ) → k ≤ length xs → length (drop k xs) + k ≡ length xs
length-drop zero xs h = omega arith
length-drop (suc k) [] h = absurd (omega arith)
length-drop (suc k) (x ∷ xs) h = omega (arith, length-drop k xs (omega arith))

drop-drop : (k n : ℕ) (xs : List ℕ) → drop (n + k) xs ≡ drop n (drop k xs)
drop-drop zero n xs = ap (λ (t : ℕ). drop t xs) (omega arith)
drop-drop (suc k) n [] = drop_nil (n + suc k) ∙ sym (drop_nil n)
  where
    drop_nil : (m : ℕ) → drop m [] ≡ []
    drop_nil zero = refl
    drop_nil (suc m) = refl
drop-drop (suc k) n (x ∷ xs) = ap (λ (t : ℕ). drop t (x ∷ xs)) shift ∙ drop-drop k n xs
  where
    shift : n + suc k ≡ suc (n + k)
    shift = omega arith

-- A skip that stays within the bytes.
after_skip-some :
    (rest : List ℕ) (s : Skip)
    → s.bytes ≤ length rest
    → after_skip rest (some s)
      ≡ some (record { bytes = drop s.bytes rest; depth = s.depth; inputs = s.inputs })
after_skip-some rest s h =
    if_false (ltb (length rest) s.bytes) _ _ (le→not_ltb s.bytes (length rest) h)

state_path :
    (x y : Bool) (bs cs : List ℕ)
    → bs ≡ cs
    → x ≡ y
    → ◌≡◌ {A = Option State}
        (some (record { bytes = bs; depth = 0; inputs = x }))
        (some (record { bytes = cs; depth = 0; inputs = y }))
state_path x y bs cs e f = cc (e, f)

fixed-Agrees :
    (n : ℕ) (x : Bool) (rest behind : List ℕ)
    → skip n rest ≡ ok behind
    → after_skip rest (some (record { bytes = n; depth = 0; inputs = x }))
      ≡ some (record { bytes = behind; depth = 0; inputs = x || false })
unfolding skip
fixed-Agrees n x rest behind h =
    let (within, same) =
      (if-ok_iff (leb n (length rest)) invalid_encoding (drop n rest) behind).0 h in
    after_skip-some rest (record { bytes = n; depth = 0; inputs = x })
      (leb→le n (length rest) within)
    ∙ state_path x (x || false) (drop n rest) behind same (or_no x)

varint-Agrees :
    (tag : ℕ) (x : Bool) (rest : List ℕ) (f : Field)
    → (varint_loop 10 0 0 rest >>= λ (_, r). ok (record { tag = tag; part = none; rest = r }))
      ≡ ok f
    → Agrees tag 0 x rest f
unfolding skip_value
varint-Agrees tag x rest f h =
    let ((v, behind), e, same) = (>>=_iff (varint_loop 10 0 0 rest) _ f).0 h in
    let (k, found, after, within, _) = lenient-varint_loop rest v behind e in
    ap (λ o. after_skip rest (skip_varint 0 x o)) found
    ∙ after_skip-some rest (record { bytes = k; depth = 0; inputs = x }) within
    ∙ state_path x (x || false) (drop k rest) behind after (or_no x)
    ∙ ap
        (λ (g : Field).
          some (record { bytes = g.rest; depth = 0; inputs = x || holds_inputs g.tag g.part }))
        (ok-injective same)

sum_fits : (a b : ℕ) → a ≤ 1048576 → b ≤ 10 → checked_add 64 a b ≡ some (a + b)
sum_fits a b h k = ground arith

part-Agrees :
    (tag : ℕ) (x : Bool) (rest : List ℕ) (f : Field)
    → length rest ≤ max_transaction_bytes
    → read_part tag rest ≡ ok f
    → Agrees tag 2 x rest f
unfolding skip_value read_part
part-Agrees tag x rest f small h =
    let ((size, body), e, h1) = (>>=_iff (varint_loop 10 0 0 rest) _ f).0 h in
    let (fits, same) = (if-ok_iff (leb size (length body)) invalid_encoding _ f).0 h1 in
    let (k, found, after, within, used) = lenient-varint_loop rest size body e in
    let whole : length body + k ≡ length rest =
      ap (λ (xs : List ℕ). length xs + k) (sym after) ∙ length-drop k rest within in
    let reach : size ≤ length body = leb→le size (length body) fits in
    let y = x || (tag == 15 && true) in
    ap (λ o. after_skip rest (skip_part tag 0 x o)) found
    ∙ ap (λ o. after_skip rest (skip_total 0 y o))
        (sum_fits size k (omega (arith, whole, reach, small)) used)
    ∙ after_skip-some rest (record { bytes = size + k; depth = 0; inputs = y })
        (omega (arith, whole, reach))
    ∙ state_path y (x || (tag == 15)) (drop (size + k) rest) (drop size body)
        (drop-drop k size rest ∙ ap (drop size) after) (ap (λ b. x || b) (and_yes (tag == 15)))
    ∙ ap
        (λ (g : Field).
          some (record { bytes = g.rest; depth = 0; inputs = x || holds_inputs g.tag g.part }))
        same

value-Agrees :
    (tag w : ℕ) (x : Bool) (rest : List ℕ) (f : Field)
    → length rest ≤ max_transaction_bytes
    → read_value tag w rest ≡ ok f
    → Agrees tag w x rest f
unfolding read_value skip_value
value-Agrees tag w x rest f small h = elim (if_ok (w == 0) _ _ f h) [
  | inl (e, h1) ↦ at_type 0 e (varint-Agrees tag x rest f h1)
  | inr (_, h1) ↦ elim (if_ok (w == 1) _ _ f h1) [
    | inl (e, h2) ↦ at_type 1 e (skipped 8 h2)
    | inr (_, h2) ↦ elim (if_ok (w == 5) _ _ f h2) [
      | inl (e, h3) ↦ at_type 5 e (skipped 4 h3)
      | inr (_, h3) ↦ elim (if_ok (w == 2) _ _ f h3) [
        | inl (e, h4) ↦ at_type 2 e (part-Agrees tag x rest f small h4)
        | inr (_, h4) ↦ cc
      ]
    ]
  ]
]
  where
    at_type : (k : ℕ) → (w == k) ≡ true → Agrees tag k x rest f → Agrees tag w x rest f
    at_type k e agrees = subst (λ (t : ℕ). Agrees tag t x rest f) (sym ((==_iff w k).0 e)) agrees

    skipped :
        (n : ℕ)
        → (skip n rest >>= λ r. ok (record { tag = tag; part = none; rest = r })) ≡ ok f
        → after_skip rest (some (record { bytes = n; depth = 0; inputs = x }))
          ≡ some (record { bytes = f.rest; depth = 0; inputs = x || holds_inputs f.tag f.part })
    skipped n e =
        let (behind, e1, same) = (>>=_iff (skip n rest) _ f).0 e in
        fixed-Agrees n x rest behind e1
        ∙ ap
            (λ (g : Field).
              some (record { bytes = g.rest; depth = 0; inputs = x || holds_inputs g.tag g.part }))
            (ok-injective same)

-- One round of the scan, outside every group, is one field of the strict reader.
scan_round-read_field :
    (bytes : List ℕ) (x : Bool) (f : Field)
    → length bytes ≤ max_transaction_bytes
    → read_field bytes ≡ ok f
    → scan_round (record { bytes = bytes; depth = 0; inputs = x })
      ≡ some (record { bytes = f.rest; depth = 0; inputs = x || holds_inputs f.tag f.part })
unfolding scan_round read_field
scan_round-read_field bytes x f small h =
    let ((key, rest), e, h1) = (>>=_iff (varint_loop 10 0 0 bytes) _ f).0 h in
    let (named, h2) = (reject_if_iff (key / 8 == 0) invalid_encoding _ f).0 h1 in
    let (k, found, after, within, _) = lenient-varint_loop bytes key rest e in
    let whole : length rest + k ≡ length bytes =
      ap (λ (xs : List ℕ). length xs + k) (sym after) ∙ length-drop k bytes within in
    ap (after_key (record { bytes = bytes; depth = 0; inputs = x })) found
    ∙ if_false (key / 8 == 0) _ _ named
    ∙ ap (λ (r : List ℕ). after_skip r (skip_value (key / 8) (key % 8) 0 x r)) after
    ∙ value-Agrees (key / 8) (key % 8) x rest f (omega (arith, whole, small)) h2

-- The strict reader reads the bytes as fields, and `x` says whether one of them is the inputs.
pub data TopLevel : List ℕ → Bool → Type 0 where
  no_more : TopLevel [] false
  next :
      (b : ℕ) (bs : List ℕ) (f : Field) (x : Bool)
      → read_field (b ∷ bs) ≡ ok f
      → TopLevel f.rest x
      → TopLevel (b ∷ bs) (holds_inputs f.tag f.part || x)

or_assoc : (x y z : Bool) → ((x || y) || z) ≡ (x || (y || z))
or_assoc true y z = refl
or_assoc false y z = refl

scan-TopLevel :
    (fuel : ℕ) (bytes : List ℕ) (x y : Bool)
    → length bytes ≤ max_transaction_bytes
    → length bytes ≤ fuel
    → TopLevel bytes y
    → scan fuel (record { bytes = bytes; depth = 0; inputs = x }) ≡ (x || y)
unfolding scan
scan-TopLevel zero _ x _ small enough no_more = and_yes x ∙ or_no x
scan-TopLevel (suc fuel) _ x _ small enough no_more = and_yes x ∙ or_no x
scan-TopLevel zero _ x _ small enough (next b bs f y e behind) = absurd (omega arith)
scan-TopLevel (suc fuel) _ x _ small enough (next b bs f y e behind) =
    let (shorter, _) = read_field-IsShorter (b ∷ bs) f e in
    ap (go_on (λ t. scan fuel t) (x && true) (b ∷ bs)) (scan_round-read_field (b ∷ bs) x f small e)
    ∙ scan-TopLevel fuel f.rest (x || holds_inputs f.tag f.part) y (omega (arith, small, shorter))
        (omega (arith, enough, shorter)) behind
    ∙ or_assoc x (holds_inputs f.tag f.part) y

Walked-TopLevel :
    (kind : WireKind) (bytes : List ℕ) (n : ℕ) → Walked kind bytes n → (x : Bool) × TopLevel bytes x
Walked-TopLevel _ _ _ (done kind) = (false, no_more)
Walked-TopLevel _ _ _ (passed kind b bs f n e _ behind) =
    let (x, top) = Walked-TopLevel kind f.rest n behind in
    (holds_inputs f.tag f.part || x, next b bs f x e top)
Walked-TopLevel _ _ _ (entered kind b bs f c part m n e _ _ behind) =
    let (x, top) = Walked-TopLevel kind f.rest n behind in
    (holds_inputs f.tag f.part || x, next b bs f x e top)

-- Of bytes within the size limit that the strict walk accepts, the scan answers whether one of the
-- top-level fields that the strict reader sees is the inputs.
pub has_transaction_inputs-preflight :
    (bytes : List ℕ) (budget left : ℕ)
    → length bytes ≤ max_transaction_bytes
    → preflight bytes transaction budget ≡ ok left
    → (x : Bool) × TopLevel bytes x × (has_transaction_inputs bytes ≡ x)
unfolding has_transaction_inputs
has_transaction_inputs-preflight bytes budget left small h =
    let (n, m, _) = (preflight-Walked_iff bytes transaction budget left).0 h in
    let (x, top) = Walked-TopLevel transaction bytes n m in
    (x, top, scan-TopLevel (length bytes) bytes false x small (omega arith) top)
