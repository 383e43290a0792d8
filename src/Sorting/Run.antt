-- ===== src/Sorting/Run.antt =====
-- What a run of the sorting programs comes to. The sources index bare C arrays: an access outside
-- the array has no defined behaviour there, and is an outcome of its own here.
use my_coding_exercises.Common.{◌≡◌, refl, ap, ◌∙◌}

-- `fault` is an access outside the array, `stuck` a model loop that ran out of fuel.
pub data Run {ℓ} (A : Type ℓ) : Type ℓ where
  fault stuck : Run A
  ok : A → Run A

infixl 10 ◌>>=◌
unfoldable pub ◌>>=◌ {μ ν} : {A : Type μ} {B : Type ν} → Run A → (A → Run B) → Run B
fault >>= next = fault
stuck >>= next = stuck
ok value >>= next = next value

-- The run ends normally, with a value of which `P` holds.
pub record Ends {μ ν} {A : Type μ} (P : A → Type ν) (r : Run A) : Type (μ ⊔ ν) where
  pub value : A
  pub eq : r ≡ ok value
  pub holds : P value

pub Ends-ok {μ ν} : {A : Type μ} {P : A → Type ν} (a : A) → P a → Ends P (ok a)
Ends-ok a h = record { value = a; eq = refl; holds = h }

pub Ends-weaken {μ ν κ} :
    {A : Type μ} {P : A → Type ν} {Q : A → Type κ} {run : Run A}
    → Ends P run
    → ((value : A) → P value → Q value)
    → Ends Q run
Ends-weaken end k = record { value = end.value; eq = end.eq; holds = k end.value end.holds }

-- A run that goes on after its first part.
pub Ends-bind {μ ν κ ρ} :
    {A : Type μ} {P : A → Type ν} {B : Type κ} {Q : B → Type ρ} {first : Run A} {next : A → Run B}
    → Ends P first
    → ((value : A) → P value → Ends Q (next value))
    → Ends Q (first >>= next)
unfolding ◌>>=◌
Ends-bind {next} end k =
    let last = k end.value end.holds in
    record { value = last.value; eq = ap (λ x. x >>= next) end.eq ∙ last.eq; holds = last.holds }

-- Two runs that both end normally, with related values.
pub record Both {ℓ κ} {A B : Type ℓ} (R : A → B → Type κ) (r : Run A) (r' : Run B)
    : Type (ℓ ⊔ κ) where
  pub first : A
  pub second : B
  pub eq_first : r ≡ ok first
  pub eq_second : r' ≡ ok second
  pub holds : R first second

module _ {ℓ κ μ} {A : Type ℓ} {B : Type ℓ} {C : Type ℓ} {P : A → Type κ} {R : B → C → Type μ} where
  -- The first run makes a step.
  pub Both-left :
      {r : Run A} {f : A → Run B} {r' : Run C}
      → Ends P r
      → ((a : A) → P a → Both R (f a) r')
      → Both R (r >>= f) r'
  unfolding ◌>>=◌
  Both-left {f} h k =
      let rest = k h.value h.holds in
      record {
        first = rest.first;
        second = rest.second;
        eq_first = ap (λ x. x >>= f) h.eq ∙ rest.eq_first;
        eq_second = rest.eq_second;
        holds = rest.holds;
      }

  -- Both runs make the same step.
  pub Both-same :
      {r r' : Run A} {f : A → Run B} {g : A → Run C}
      → Ends P r
      → r' ≡ r
      → ((a : A) → P a → Both R (f a) (g a))
      → Both R (r >>= f) (r' >>= g)
  unfolding ◌>>=◌
  Both-same {f} {g} h e k =
      let rest = k h.value h.holds in
      record {
        first = rest.first;
        second = rest.second;
        eq_first = ap (λ x. x >>= f) h.eq ∙ rest.eq_first;
        eq_second = ap (λ x. x >>= g) (e ∙ h.eq) ∙ rest.eq_second;
        holds = rest.holds;
      }

pub Both-bind {ℓ κ μ} :
    {A B C D : Type ℓ} {P : A → B → Type κ} {R : C → D → Type μ} {r : Run A} {r' : Run B}
    {f : A → Run C} {g : B → Run D}
    → Both P r r'
    → ((a : A) (b : B) → P a b → Both R (f a) (g b))
    → Both R (r >>= f) (r' >>= g)
unfolding ◌>>=◌
Both-bind {f} {g} h k =
    let rest = k h.first h.second h.holds in
    record {
      first = rest.first;
      second = rest.second;
      eq_first = ap (λ x. x >>= f) h.eq_first ∙ rest.eq_first;
      eq_second = ap (λ x. x >>= g) h.eq_second ∙ rest.eq_second;
      holds = rest.holds;
    }

pub Both-ok {ℓ κ} :
    {A B : Type ℓ} {R : A → B → Type κ} (a : A) (b : B) → R a b → Both R (ok a) (ok b)
Both-ok a b h = record { first = a; second = b; eq_first = refl; eq_second = refl; holds = h }
