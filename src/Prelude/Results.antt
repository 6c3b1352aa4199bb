-- ===== src/Prelude/Results.antt =====
-- Rust's `Result`, with its error type, and the `?` operator as a bind.
use mathlib.Core.Path.{◌≡◌, refl, ap, ◌∙◌}
use mathlib.Core.Logic.{◌↔◌, ◌⊎◌, inl, inr}
use mathlib.Core.Bool.{Bool, true, false}
use mathlib.Core.Option.{Option, none, some}
use quai_rust_sdk.Prelude.Tests.{if◌then◌else◌}

pub data Result {ℓ κ} (E : Type ℓ) (A : Type κ) : Type (ℓ ⊔ κ) where
  ok : A → Result E A
  err : E → Result E A

module _ {ℓ} {E : Type ℓ} where
  infixl 5 ◌>>=◌ ◌>>◌
  abbrev pub ◌>>=◌ {κ μ} : {A : Type κ} {B : Type μ} → Result E A → (A → Result E B) → Result E B
  ok found >>= next = next found
  err why >>= next = err why

  abbrev pub ◌>>◌ {κ} : {B : Type κ} → Result E (Unit {0}) → Result E B → Result E B
  first >> next = first >>= λ _. next

  -- `if bad { return Err(e) }`
  abbrev pub reject_if : Bool → E → Result E (Unit {0})
  reject_if true e = err e
  reject_if false e = ok tt

  abbrev pub ok_or {κ} : {A : Type κ} → Option A → E → Result E A
  ok_or none e = err e
  ok_or (some a) e = ok a

module _ {ℓ κ} {E : Type ℓ} {A : Type κ} where
  pub Result-cases : (r : Result E A) → ((a : A) × (r ≡ ok a)) ⊎ ((e : E) × (r ≡ err e))
  Result-cases (ok a) = inl (a, refl)
  Result-cases (err e) = inr (e, refl)

  -- Inversion of a successful bind.
  pub >>=-eq-ok {μ} :
      {B : Type μ} {out : B} (first : Result E A) (next : A → Result E B)
      → first >>= next ≡ ok out
      → (found : A) × (first ≡ ok found) × (next found ≡ ok out)
  >>=-eq-ok (ok found) next eq = (found, refl, eq)
  >>=-eq-ok (err why) next eq = cc

  pub ok-injective : {a b : A} → ◌≡◌ {A = Result E A} (ok a) (ok b) → a ≡ b
  ok-injective h = cc

  pub err-injective : {a b : E} → ◌≡◌ {A = Result E A} (err a) (err b) → a ≡ b
  err-injective h = cc

  pub >>=-ok : (r : Result E A) → (r >>= ok) ≡ r
  >>=-ok (ok a) = refl
  >>=-ok (err e) = refl

  -- Inversion of a passed guard, and of an optional value that was there.
  pub reject_if-ok :
      (b : Bool) (e : E) (k : Result E A) {a : A}
      → (reject_if b e >> k) ≡ ok a
      → (b ≡ false) × (k ≡ ok a)
  reject_if-ok true e k h = cc
  reject_if-ok false e k h = (refl, h)

  pub ok_or-ok {μ} :
      {B : Type μ} (o : Option B) (e : E) (f : B → Result E A) {a : A}
      → (ok_or o e >>= f) ≡ ok a
      → (b : B) × (o ≡ some b) × (f b ≡ ok a)
  ok_or-ok none e f h = cc
  ok_or-ok (some b) e f h = (b, refl, h)

  -- Inversion of a failed bind and of a failed guard.
  pub >>=-eq-err {μ} :
      {B : Type μ} {why : E} (first : Result E B) (next : B → Result E A)
      → first >>= next ≡ err why
      → (first ≡ err why) ⊎ ((found : B) × (first ≡ ok found) × (next found ≡ err why))
  >>=-eq-err (ok found) next eq = inr (found, refl, eq)
  >>=-eq-err (err why) next eq = inl (ap err (err-injective eq))

  pub reject_if-err :
      (b : Bool) (d : E) (k : Result E A) {e : E}
      → (reject_if b d >> k) ≡ err e
      → ((b ≡ true) × (d ≡ e)) ⊎ ((b ≡ false) × (k ≡ err e))
  reject_if-err true d k h = inl (refl, err-injective h)
  reject_if-err false d k h = inr (refl, h)

  pub ok_or-err {μ} :
      {B : Type μ} (o : Option B) (d : E) (f : B → Result E A) {e : E}
      → (ok_or o d >>= f) ≡ err e
      → (d ≡ e) ⊎ ((b : B) × (o ≡ some b) × (f b ≡ err e))
  ok_or-err none d f h = inl (err-injective h)
  ok_or-err (some b) d f h = inr (b, refl, h)

  -- A bind and a guard succeed exactly when both of their parts do.
  pub >>=_iff {μ} :
      {B : Type μ} (first : Result E A) (next : A → Result E B) (out : B)
      → (first >>= next ≡ ok out) ↔ ((found : A) × (first ≡ ok found) × (next found ≡ ok out))
  >>=_iff first next out =
      (>>=-eq-ok first next, λ (found, e, h). ap (λ (r : Result E A). r >>= next) e ∙ h)

  pub reject_if_iff :
      (b : Bool) (e : E) (k : Result E A) (out : A)
      → ((reject_if b e >> k) ≡ ok out) ↔ ((b ≡ false) × (k ≡ ok out))
  reject_if_iff b e k out =
      (reject_if-ok b e k, λ (h, g). ap (λ (t : Bool). reject_if t e >> k) h ∙ g)

  pub ok_or_iff {μ} :
      {B : Type μ} (o : Option B) (e : E) (f : B → Result E A) (out : A)
      → (ok_or o e >>= f ≡ ok out) ↔ ((b : B) × (o ≡ some b) × (f b ≡ ok out))
  ok_or_iff {B = B} o e f out =
      (ok_or-ok o e f, λ (b, h, g). ap (λ (p : Option B). ok_or p e >>= f) h ∙ g)

  -- The same with a bind behind the guarded result.
  pub reject_if->>=_iff {μ} :
      {B : Type μ} (b : Bool) (e : E) (k : Result E A) (next : A → Result E B) (out : B)
      → ((reject_if b e >> k >>= next) ≡ ok out) ↔ ((b ≡ false) × (k >>= next ≡ ok out))
  reject_if->>=_iff true e k next out = (λ h. cc, λ h. cc (h.0))
  reject_if->>=_iff false e k next out = (λ h. (refl, h), λ h. h.1)

pub reject_if_passes {ℓ} : {E : Type ℓ} (b : Bool) (e : E) → (reject_if b e ≡ ok tt) ↔ (b ≡ false)
reject_if_passes true e = (λ h. cc, λ h. cc)
reject_if_passes false e = (λ _. refl, λ _. refl)

pub if-ok_iff {ℓ κ} :
    {E : Type ℓ} {A : Type κ} (b : Bool) (e : E) (x a : A)
    → ((if b then ok x else err e) ≡ ok a) ↔ ((b ≡ true) × (x ≡ a))
if-ok_iff true e x a = (λ h. (refl, ok-injective h), λ h. ap ok h.1)
if-ok_iff false e x a = (λ h. cc, λ h. cc (h.0))
