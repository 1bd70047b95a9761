-- ===== src/Prelude/Options.antt =====
-- How the content of an option changes.
use mathlib.Core.Option
use mathlib.Core.Path.{◌≡◌}
use mathlib.Core.Bool.{Bool, true, false}
use mathlib.Core.Option.{Option, none, some}
use enclave_os.Prelude.Tests.{if◌then◌else◌}

-- Both options are empty, or both have a content and the relation holds of the two.
abbrev pub Matches {ℓ} : {A : Type ℓ} → (A → A → Type 0) → Option A → Option A → Type 0
Matches R none none = Unit
Matches R none (some b) = ⊥
Matches R (some a) none = ⊥
Matches R (some a) (some b) = R a b

-- Under the test the contents are related, and otherwise nothing has changed.
abbrev pub Changed : {A : Type 0} → Bool → (A → A → Type 0) → Option A → Option A → Type 0
Changed true R o o' = Matches R o o'
Changed false R o o' = o' ≡ o

module _ {A : Type 0} (R : A → A → Type 0) (f : A → A) (r : (a : A) → R a (f a)) where
  map-Matches : (o : Option A) → Matches R o (Option.map f o)
  map-Matches none = tt
  map-Matches (some a) = r a

  pub Matches-map : (o o' : Option A) → o' ≡ Option.map f o → Matches R o o'
  Matches-map o o' e = rw e (map-Matches o)

  pub Changed-map :
      (b : Bool) (o o' : Option A) → o' ≡ (if b then Option.map f o else o) → Changed b R o o'
  Changed-map true o o' e = Matches-map o o' e
  Changed-map false o o' e = e

pub Changed-weaken :
    {A : Type 0} (R S : A → A → Type 0)
    → ((a b : A) → R a b → S a b)
    → (c : Bool) (o o' : Option A) → Changed c R o o'
    → Changed c S o o'
Changed-weaken R S k true none none h = tt
Changed-weaken R S k true none (some b) h = h
Changed-weaken R S k true (some a) none h = h
Changed-weaken R S k true (some a) (some b) h = k a b h
Changed-weaken R S k false o o' h = h
