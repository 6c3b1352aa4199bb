-- ===== src/Consensus/Wire/Grammar/Reads.antt =====
-- The reader of a field accepts the fields of the wire format, and no others.
use quai_rust_sdk.Prelude.{
  ℕ, zero, suc, ◌+◌, ◌*◌, ◌/◌, ◌%◌, ◌≤◌, ◌<◌, ◌==◌, ◌≡◌, ◌↔◌, refl, sym, ap, subst, ◌∙◌, inl, inr,
  arith, leb, le→leb, leb→le, false, List, [], ◌∷◌, ◌++◌, length, length-append, Option, none, some,
  ok, ok-injective, ◌>>=◌, >>=_iff, reject_if_iff, if-ok_iff, ==_iff,
}
use mathlib.Core.List.{append_assoc}
use quai_rust_sdk.Primitives.Bytes.{take, drop, take-append, drop-append}
use quai_rust_sdk.Consensus.Error.{invalid_encoding}
use quai_rust_sdk.Consensus.Wire.{Field, varint, skip, read_part, read_value, read_field}
use quai_rust_sdk.Consensus.Wire.Fields.{if_ok}
use quai_rust_sdk.Consensus.Wire.Grammar.{IsNumber, IsValue, IsField}
use quai_rust_sdk.Consensus.Wire.Grammar.Numbers.{varint_iff}

take-drop : (n : ℕ) (xs : List ℕ) → xs ≡ take n xs ++ drop n xs
take-drop zero xs = refl
take-drop (suc n) [] = refl
take-drop (suc n) (x ∷ xs) = ap (λ ys. x ∷ ys) (take-drop n xs)

length-take_eq : (n : ℕ) (xs : List ℕ) → n ≤ length xs → length (take n xs) ≡ n
length-take_eq zero xs h = refl
length-take_eq (suc n) [] h = absurd (omega arith)
length-take_eq (suc n) (x ∷ xs) h = ap suc (length-take_eq n xs (omega arith))

skip_iff :
    (n : ℕ) (bytes rest : List ℕ)
    → (skip n bytes ≡ ok rest) ↔ ((value : List ℕ) × (bytes ≡ value ++ rest) × (length value ≡ n))
unfolding skip
skip_iff n bytes rest = (
  λ h.
      let (fits, e) = (if-ok_iff (leb n (length bytes)) invalid_encoding (drop n bytes) rest).0 h in
      (
        take n bytes,
        take-drop n bytes ∙ ap (λ xs. take n bytes ++ xs) e,
        length-take_eq n bytes (leb→le n (length bytes) fits),
      ),
  λ (value, split, size).
      let fits : n ≤ length bytes =
        omega (arith, size, ap length split, length-append value rest) in
      (if-ok_iff (leb n (length bytes)) invalid_encoding (drop n bytes) rest).1
        (le→leb n (length bytes) fits, ap (drop n) split ∙ drop-append n value rest size),
)

field_path :
    (f : Field) (tag : ℕ) (part : Option (List ℕ)) (rest : List ℕ)
    → f.tag ≡ tag
    → part ≡ f.part
    → rest ≡ f.rest
    → ◌≡◌ {A = Field} (record { tag = tag; part = part; rest = rest }) f
field_path f tag part rest e p r =
    ap (λ (x : ℕ). record { tag = x; part = part; rest = rest }) (sym e)
    ∙ ap (λ (x : Option (List ℕ)). record { tag = f.tag; part = x; rest = rest }) p
    ∙ ap (λ (x : List ℕ). record { tag = f.tag; part = f.part; rest = x }) r

-- A length, and as many bytes.
abbrev IsPart : ℕ → List ℕ → Field → Type 0
IsPart tag bytes f =
    (f.tag ≡ tag)
    × (part : List ℕ) × (size : List ℕ) × (f.part ≡ some part)
    × IsNumber size (length part)
    × (bytes ≡ size ++ (part ++ f.rest))

read_part_iff :
    (tag : ℕ) (bytes : List ℕ) (f : Field) → (read_part tag bytes ≡ ok f) ↔ IsPart tag bytes f
unfolding read_part
read_part_iff tag bytes f = (
  λ h.
      let ((len, body), e, h1) = (>>=_iff (varint bytes) _ f).0 h in
      let (fits, same) = (if-ok_iff (leb len (length body)) invalid_encoding _ f).0 h1 in
      let (size, split, number) = (varint_iff bytes len body).0 e in
      subst (IsPart tag bytes) same (
        refl,
        take len body,
        size,
        refl,
        subst (IsNumber size) (sym (length-take_eq len body (leb→le len (length body) fits)))
            number,
        split ∙ ap (λ xs. size ++ xs) (take-drop len body),
      ),
  λ (t, part, size, p, number, split). (>>=_iff (varint bytes) _ f).1 (
    (length part, part ++ f.rest),
    (varint_iff bytes (length part) (part ++ f.rest)).1 (size, split, number),
    (if-ok_iff (leb (length part) (length (part ++ f.rest))) invalid_encoding _ f).1 (
      le→leb (length part) (length (part ++ f.rest)) (omega (arith, length-append part f.rest)),
      field_path f tag _ _ t (ap some (take-append (length part) part f.rest refl) ∙ sym p)
          (drop-append (length part) part f.rest refl),
    ),
  ),
)

-- Behind the key, by its wire type.
abbrev IsRest : ℕ → ℕ → List ℕ → Field → Type 0
IsRest tag wire_type bytes f =
    (f.tag ≡ tag) × (value : List ℕ) × (bytes ≡ value ++ f.rest) × IsValue wire_type value f.part

plain_forth :
    (tag wire_type n : ℕ) (bytes : List ℕ) (f : Field)
    → ((value : List ℕ) → length value ≡ n → IsValue wire_type value none)
    → (skip n bytes >>= λ rest. ok (record { tag = tag; part = none; rest = rest })) ≡ ok f
    → IsRest tag wire_type bytes f
plain_forth tag wire_type n bytes f typed h =
    let (rest, e, same) = (>>=_iff (skip n bytes) _ f).0 h in
    let (value, split, size) = (skip_iff n bytes rest).0 e in
    subst (IsRest tag wire_type bytes) (ok-injective same) (refl, value, split, typed value size)

read_value_sound :
    (tag wire_type : ℕ) (bytes : List ℕ) (f : Field)
    → read_value tag wire_type bytes ≡ ok f
    → IsRest tag wire_type bytes f
unfolding read_value
read_value_sound tag wire_type bytes f h = elim (if_ok (wire_type == 0) _ _ f h) [
  | inl (w, e) ↦
      let ((n, rest), e1, same) = (>>=_iff (varint bytes) _ f).0 e in
      let (value, split, number) = (varint_iff bytes n rest).0 e1 in
      subst (IsRest tag wire_type bytes) (ok-injective same)
        (refl, value, split, inl ((==_iff wire_type 0).0 w, n, number))
  | inr (_, h1) ↦ elim (if_ok (wire_type == 1) _ _ f h1) [
    | inl (w, e) ↦
        plain_forth tag wire_type 8 bytes f (λ v size. inr (inl ((==_iff wire_type 1).0 w, size))) e
    | inr (_, h2) ↦ elim (if_ok (wire_type == 5) _ _ f h2) [
      | inl (w, e) ↦
          plain_forth tag wire_type 4 bytes f (λ v size. inr (inr ((==_iff wire_type 5).0 w, size)))
            e
      | inr (_, h3) ↦ elim (if_ok (wire_type == 2) _ _ f h3) [
        | inl (w, e) ↦
            let (t, part, size, p, number, split) = (read_part_iff tag bytes f).0 e in
            (
              t,
              size ++ part,
              split ∙ sym (append_assoc size part f.rest),
              subst (IsValue wire_type (size ++ part)) (sym p)
                  ((==_iff wire_type 2).0 w, size, number, refl),
            )
        | inr (_, e) ↦ cc
      ]
    ]
  ]
]

plain_back :
    (tag n : ℕ) (bytes value : List ℕ) (f : Field)
    → f.tag ≡ tag
    → f.part ≡ none
    → bytes ≡ value ++ f.rest
    → length value ≡ n
    → (skip n bytes >>= λ rest. ok (record { tag = tag; part = none; rest = rest })) ≡ ok f
plain_back tag n bytes value f t p split size = (>>=_iff (skip n bytes) _ f).1 (
  f.rest,
  (skip_iff n bytes f.rest).1 (value, split, size),
  ap ok (field_path f tag none f.rest t (sym p) refl),
)

read_value_complete :
    (tag wire_type : ℕ) (bytes value : List ℕ) (f : Field) (part : Option (List ℕ))
    → f.tag ≡ tag
    → f.part ≡ part
    → bytes ≡ value ++ f.rest
    → IsValue wire_type value part
    → read_value tag wire_type bytes ≡ ok f
unfolding read_value
read_value_complete tag wire_type bytes value f none t p split (inl (w, n, number)) =
    ap (λ (k : ℕ). read_value tag k bytes) w
    ∙ (>>=_iff (varint bytes) _ f).1 (
      (n, f.rest),
      (varint_iff bytes n f.rest).1 (value, split, number),
      ap ok (field_path f tag none f.rest t (sym p) refl),
    )
read_value_complete tag wire_type bytes value f none t p split (inr (inl (w, size))) =
    ap (λ (k : ℕ). read_value tag k bytes) w ∙ plain_back tag 8 bytes value f t p split size
read_value_complete tag wire_type bytes value f none t p split (inr (inr (w, size))) =
    ap (λ (k : ℕ). read_value tag k bytes) w ∙ plain_back tag 4 bytes value f t p split size
read_value_complete tag wire_type bytes value f (some part) t p split (w, size, number, same) =
    ap (λ (k : ℕ). read_value tag k bytes) w
    ∙ (read_part_iff tag bytes f).1 (
      t,
      part,
      size,
      p,
      number,
      split ∙ ap (λ xs. xs ++ f.rest) same ∙ append_assoc size part f.rest,
    )

IsValue-small :
    (wire_type : ℕ) (value : List ℕ) (part : Option (List ℕ))
    → IsValue wire_type value part
    → wire_type < 8
IsValue-small wire_type value none (inl (w, _, _)) = omega (arith, w)
IsValue-small wire_type value none (inr (inl (w, _))) = omega (arith, w)
IsValue-small wire_type value none (inr (inr (w, _))) = omega (arith, w)
IsValue-small wire_type value (some part) (w, _, _, _) = omega (arith, w)

-- A field is read exactly when the bytes start with that field of the wire format.
pub read_field_iff : (bytes : List ℕ) (f : Field) → (read_field bytes ≡ ok f) ↔ IsField bytes f
unfolding read_field
read_field_iff bytes f = (
  λ h.
      let ((n, rest), e, h1) = (>>=_iff (varint bytes) _ f).0 h in
      let (tagged, h2) = (reject_if_iff (n / 8 == 0) invalid_encoding _ f).0 h1 in
      let (key, split, number) = (varint_iff bytes n rest).0 e in
      let (t, value, behind, typed) = read_value_sound (n / 8) (n % 8) rest f h2 in
      let whole : n ≡ f.tag * 8 + n % 8 = omega (arith, t) in
      record {
        wire_type = n % 8;
        key = key;
        value = value;
        split = split ∙ ap (λ xs. key ++ xs) behind;
        number = subst (IsNumber key) whole number;
        positive = positive n f.tag tagged t;
        typed = typed;
      },
  λ is.
      let small = IsValue-small is.wire_type is.value f.part is.typed in
      let n = f.tag * 8 + is.wire_type in
      let tag : n / 8 ≡ f.tag = omega (arith, small) in
      let wire_type : n % 8 ≡ is.wire_type = omega (arith, small) in
      (>>=_iff (varint bytes) _ f).1 (
        (n, is.value ++ f.rest),
        (varint_iff bytes n (is.value ++ f.rest)).1 (is.key, is.split, is.number),
        (reject_if_iff (n / 8 == 0) invalid_encoding _ f).1 (
          nonzero (n / 8) f.tag tag is.positive,
          ap (λ (k : ℕ). read_value (n / 8) k (is.value ++ f.rest)) wire_type
              ∙ read_value_complete (n / 8) is.wire_type (is.value ++ f.rest) is.value f f.part
                  (sym tag) refl refl is.typed,
        ),
      ),
)
  where
    positive : (n tag : ℕ) → (n / 8 == 0) ≡ false → tag ≡ n / 8 → 1 ≤ tag
    positive n tag e t = ground (arith, t)

    nonzero : (k tag : ℕ) → k ≡ tag → 1 ≤ tag → (k == 0) ≡ false
    nonzero k tag e h = ground (arith, e)
