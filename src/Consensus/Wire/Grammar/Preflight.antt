-- ===== src/Consensus/Wire/Grammar/Preflight.antt =====
-- The walk accepts exactly the messages of the wire format that the budget covers.
use quai_rust_sdk.Prelude.{
  ℕ, suc, ◌+◌, ◌≡◌, ◌↔◌, refl, ap, ◌∙◌, inl, inr, List, [], ◌∷◌, Option, none, some, some_injective,
  ok,
}
use quai_rust_sdk.Consensus.Wire.{
  WireKind, Field, read_field, child, with_child, opened, preflight, varint_loop,
}
use quai_rust_sdk.Consensus.Wire.Messages.{
  Walked, done, passed, entered, opened-some, preflight-Walked_iff,
}
use quai_rust_sdk.Consensus.Wire.Grammar.{IsOpaque, Message, empty, plain, nested}
use quai_rust_sdk.Consensus.Wire.Grammar.Nesting.{child_iff}
use quai_rust_sdk.Consensus.Wire.Grammar.Reads.{read_field_iff}

opened-none : (kind : WireKind) (f : Field) → opened kind f.tag f.part ≡ none → IsOpaque kind f
opened-none kind f h = by_part f.part refl h
  where
    by_child :
        (p : List ℕ) (o : Option WireKind) (c : WireKind) → with_child p o ≡ none → o ≡ some c → ⊥
    by_child p none c e h = cc
    by_child p (some d) c e h = cc

    by_part :
        (part : Option (List ℕ)) → f.part ≡ part → opened kind f.tag part ≡ none → IsOpaque kind f
    by_part none p e = inl p
    by_part (some q) p e =
        inr (λ c is. by_child q (child kind f.tag) c e ((child_iff kind f.tag c).1 is))

none-opened : (kind : WireKind) (f : Field) → IsOpaque kind f → opened kind f.tag f.part ≡ none
none-opened kind f (inl p) = ap (opened kind f.tag) p
none-opened kind f (inr h) = by_part f.part
  where
    by_child : (q : List ℕ) (o : Option WireKind) → child kind f.tag ≡ o → with_child q o ≡ none
    by_child q none e = refl
    by_child q (some c) e = absurd (h c ((child_iff kind f.tag c).0 e))

    by_part : (part : Option (List ℕ)) → opened kind f.tag part ≡ none
    by_part none = refl
    by_part (some q) = by_child q (child kind f.tag) refl

opened-child :
    (kind : WireKind) (tag : ℕ) (part : Option (List ℕ)) (c : WireKind) (p : List ℕ)
    → opened kind tag part ≡ some (c, p)
    → child kind tag ≡ some c
opened-child kind tag none c p h = cc
opened-child kind tag (some q) c p h = by_child (child kind tag) h
  where
    by_child : (o : Option WireKind) → with_child q o ≡ some (c, p) → o ≡ some c
    by_child none e = cc
    by_child (some d) e = ap (λ (x : WireKind × List ℕ). some x.0) (some_injective e)

no_field : (f : Field) → read_field [] ≡ ok f → ⊥
unfolding read_field varint_loop
no_field f h = cc

Walked-Message :
    (kind : WireKind) (bytes : List ℕ) (n : ℕ) → Walked kind bytes n → Message kind bytes n
Walked-Message _ _ _ (done kind) = empty kind
Walked-Message _ _ _ (passed kind b bs f n e shut behind) =
    plain kind (b ∷ bs) f n ((read_field_iff (b ∷ bs) f).0 e) (opened-none kind f shut)
      (Walked-Message kind f.rest n behind)
Walked-Message _ _ _ (entered kind b bs f c part m n e open_ within behind) =
    nested kind (b ∷ bs) f c part m n ((read_field_iff (b ∷ bs) f).0 e)
      (opened-some kind f.tag f.part c part open_)
      ((child_iff kind f.tag c).0 (opened-child kind f.tag f.part c part open_))
      (Walked-Message c part m within) (Walked-Message kind f.rest n behind)

Message-Walked :
    (kind : WireKind) (bytes : List ℕ) (n : ℕ) → Message kind bytes n → Walked kind bytes n
Message-Walked _ _ _ (empty kind) = done kind
Message-Walked _ _ _ (plain kind [] f n is opaque behind) =
    absurd (no_field f ((read_field_iff [] f).1 is))
Message-Walked _ _ _ (plain kind (b ∷ bs) f n is opaque behind) =
    passed kind b bs f n ((read_field_iff (b ∷ bs) f).1 is) (none-opened kind f opaque)
      (Message-Walked kind f.rest n behind)
Message-Walked _ _ _ (nested kind [] f c part m n is holds below within behind) =
    absurd (no_field f ((read_field_iff [] f).1 is))
Message-Walked _ _ _ (nested kind (b ∷ bs) f c part m n is holds below within behind) =
    entered kind b bs f c part m n ((read_field_iff (b ∷ bs) f).1 is)
      (ap (opened kind f.tag) holds ∙ ap (with_child part) ((child_iff kind f.tag c).1 below))
      (Message-Walked c part m within) (Message-Walked kind f.rest n behind)

-- The bytes pass exactly when they are the fields of a message of the kind, in the wire format, and
-- the budget covers it and those nested in it; what is left of the budget is what they did not use.
pub preflight_iff :
    (bytes : List ℕ) (kind : WireKind) (budget left : ℕ)
    → (preflight bytes kind budget ≡ ok left)
      ↔ ((n : ℕ) × Message kind bytes n × (budget ≡ suc (n + left)))
preflight_iff bytes kind budget left =
    let (forth, back) = preflight-Walked_iff bytes kind budget left in
    (
      λ h. let (n, walked, same) = forth h in (n, Walked-Message kind bytes n walked, same),
      λ (n, message, same). back (n, Message-Walked kind bytes n message, same),
    )
