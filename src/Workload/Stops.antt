-- ===== src/Workload/Stops.antt =====
-- How a part of the line loop ends: it goes on, or the process stops there. A stop is a value of its
-- own, so that what ends the loop is not confused.
use rocks_db_wrapper.Base.{
  ◌≡◌, ◌⊎◌, inl, inr, refl, ap, ◌∙◌, Bool, true, false, Option, none, some, if◌then◌else◌,
}
use rocks_db_wrapper.Base.Text.{Text}

-- A failed assertion, with what std::cerr holds; a remainder of a division by zero; a switch on a
-- variable without a value. The last two are undefined behaviour.
pub data Stop : Type 0 where
  assertion_failed : Text → Stop
  division_by_zero unset_operation : Stop

pub data Outcome {ℓ} (A : Type ℓ) : Type ℓ where
  finished : A → Outcome A
  stopped : Stop → Outcome A

infixl 5 ◌>>>◌
abbrev pub ◌>>>◌ {ℓ κ} : {A : Type ℓ} {B : Type κ} → Outcome A → (A → Outcome B) → Outcome B
finished a >>> f = f a
stopped s >>> f = stopped s

abbrev pub or_stop {ℓ} : {A : Type ℓ} → Stop → Option A → Outcome A
or_stop s none = stopped s
or_stop s (some a) = finished a

module _ {ℓ} {A : Type ℓ} where
  finished_or : A → Outcome A → A
  finished_or a (finished b) = b
  finished_or a (stopped s) = a

  stop_or : Stop → Outcome A → Stop
  stop_or s (finished a) = s
  stop_or s (stopped t) = t

  pub finished-injective : (a b : A) → finished a ≡ finished b → a ≡ b
  unfolding finished_or
  finished-injective a b e = ap (finished_or a) e

  pub stopped-injective : (s t : Stop) → ◌≡◌ {A = Outcome A} (stopped s) (stopped t) → s ≡ t
  unfolding stop_or
  stopped-injective s t e = ap (stop_or s) e

  pub or_stop-eq-finished :
      (s : Stop) (m : Option A) {a : A} → or_stop s m ≡ finished a → m ≡ some a
  or_stop-eq-finished s none e = absurd (cc e)
  or_stop-eq-finished s (some b) e = ap some (finished-injective _ _ e)

  pub or_stop-eq-stopped :
      (s t : Stop) (m : Option A) → or_stop s m ≡ stopped t → (m ≡ none) × (s ≡ t)
  or_stop-eq-stopped s t none e = (refl, stopped-injective s t e)
  or_stop-eq-stopped s t (some b) e = absurd (cc e)

  pub if_else_stopped :
      (test : Bool) (s : Stop) {a b : A}
      → (if test then finished a else stopped s) ≡ finished b
      → finished a ≡ finished b
  if_else_stopped true s e = e
  if_else_stopped false s e = absurd (cc e)

module _ {ℓ κ} {A : Type ℓ} {B : Type κ} where
  pub >>>-eq-finished :
      (m : Outcome A) (f : A → Outcome B) {b : B}
      → (m >>> f) ≡ finished b
      → (a : A) × (m ≡ finished a) × (f a ≡ finished b)
  >>>-eq-finished (finished a) f e = (a, refl, e)
  >>>-eq-finished (stopped s) f e = absurd (cc e)

  pub >>>-eq-stopped :
      (m : Outcome A) (f : A → Outcome B) {s : Stop}
      → (m >>> f) ≡ stopped s
      → (m ≡ stopped s) ⊎ ((a : A) × (m ≡ finished a) × (f a ≡ stopped s))
  >>>-eq-stopped (finished a) f e = inr (a, refl, e)
  >>>-eq-stopped (stopped t) f e = inl (ap stopped (stopped-injective t _ e))

  pub >>>-finished :
      {m : Outcome A} {a : A} (f : A → Outcome B) {x : Outcome B}
      → m ≡ finished a
      → f a ≡ x
      → (m >>> f) ≡ x
  >>>-finished f e rest = ap (λ n. n >>> f) e ∙ rest

  pub >>>-stopped :
      {m : Outcome A} {s : Stop} (f : A → Outcome B) → m ≡ stopped s → (m >>> f) ≡ stopped s
  >>>-stopped f e = ap (λ n. n >>> f) e
