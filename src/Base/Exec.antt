-- ===== src/Base/Exec.antt =====
-- C functions over a mutable state. `none` is an access outside an object, which C leaves undefined.
use Prim.Native.Nat.{ℕ, zero, suc, ◌+◌}
use mathlib.Core.Path.{◌≡◌}
use mathlib.Core.Option.{Option, none, some}
use native.Mathlib.Omega.{arith}

abbrev pub Prog {ℓ} : Type ℓ → Type ℓ → Type ℓ
Prog S A = S → Option (A × S)

module _ {ℓ} {S A : Type ℓ} where
  abbrev pub pure : A → Prog S A
  pure a s = some (a, s)

  abbrev pub lift : Option A → Prog S A
  lift none s = none
  lift (some a) s = some (a, s)

  abbrev pub gets : (S → A) → Prog S A
  gets f s = some (f s, s)

module _ {ℓ} {S : Type ℓ} where
  abbrev pub modify : (S → S) → Prog S (Unit {ℓ})
  modify f s = some (tt, f s)

module _ {ℓ} {S A B : Type ℓ} where
  infixl 5 ◌>>=◌ ◌>>◌
  abbrev pub ◌>>=◌ : Prog S A → (A → Prog S B) → Prog S B
  ◌>>=◌ m f s = elim (m s) [ none ↦ none | some (a, t) ↦ f a t ]

  abbrev pub ◌>>◌ : Prog S A → Prog S B → Prog S B
  ◌>>◌ m k s = elim (m s) [ none ↦ none | some (a, t) ↦ k t ]

module _ {ℓ} {S : Type ℓ} where
  -- `for (i = 0; i < n; i++) body`, where the body does not read `i`.
  unfoldable pub for_range : ℕ → Prog S (Unit {ℓ}) → Prog S (Unit {ℓ})
  for_range zero body = pure tt
  for_range (suc n) body = do body; for_range n body

-- The run returns, and what it returns meets `Q`: total correctness in one statement.
abbrev pub Returns {ℓ} : {S A : Type ℓ} → (A → S → Type 0) → Option (A × S) → Type 0
Returns Q none = ⊥
Returns Q (some (a, t)) = Q a t

module _ {ℓ} {S A : Type ℓ} (Q R : A → S → Type 0) where
  pub Returns-map :
      (r : Option (A × S)) → ((a : A) (t : S) → Q a t → R a t) → Returns Q r → Returns R r
  Returns-map none k h = h
  Returns-map (some (a, t)) k h = k a t h

module _ {ℓ} {S A B : Type ℓ} (m : Prog S A) (Q : A → S → Type 0) (R : B → S → Type 0) where
  -- What follows runs from a result that meets `Q`.
  pub Returns-bind :
      (f : A → Prog S B) (s : S)
      → Returns Q (m s)
      → ((a : A) (t : S) → Q a t → Returns R (f a t))
      → Returns R ((m >>= f) s)
  Returns-bind f s = go (m s)
    where
      go :
          (r : Option (A × S))
          → Returns Q r
          → ((a : A) (t : S) → Q a t → Returns R (f a t))
          → Returns R (elim r as (λ _. Option (B × S)) [ none ↦ none | some (a, t) ↦ f a t ])
      go none h k = absurd h
      go (some (a, t)) h k = k a t h

  pub Returns-then :
      (k : Prog S B) (s : S)
      → Returns Q (m s)
      → ((a : A) (t : S) → Q a t → Returns R (k t))
      → Returns R ((m >> k) s)
  Returns-then k s = go (m s)
    where
      go :
          (r : Option (A × S))
          → Returns Q r
          → ((a : A) (t : S) → Q a t → Returns R (k t))
          → Returns R (elim r as (λ _. Option (B × S)) [ none ↦ none | some (a, t) ↦ k t ])
      go none h l = absurd h
      go (some (a, t)) h l = l a t h

module _ {ℓ} {S : Type ℓ} (P : ℕ → S → Type 0) (body : Prog S (Unit {ℓ})) where
  -- A body that always returns and keeps the invariant makes a loop that returns. `k` counts the
  -- rounds made.
  pub Returns-for_range :
      ((k : ℕ) (s : S) → P k s → Returns (λ _ t. P (suc k) t) (body s))
      → (n k j : ℕ) (s : S) → n + k ≡ j
      → P k s
      → Returns (λ _ t. P j t) (for_range n body s)
  unfolding for_range
  Returns-for_range keep zero k j s e h = let e' : k ≡ j = omega arith in rw e' at h
  Returns-for_range keep (suc n) k j s e h =
      Returns-then body (λ _ t. P (suc k) t) (λ _ t. P j t) (for_range n body) s (keep k s h)
        (λ _ t q. Returns-for_range keep n (suc k) j t (omega arith) q)

-- If the run returns, what it returns meets `Q`.
abbrev pub OnReturn {ℓ} : {S A : Type ℓ} → (A → S → Type 0) → Option (A × S) → Type 0
OnReturn Q none = Unit {0}
OnReturn Q (some (a, t)) = Q a t

module _ {ℓ} {S A B : Type ℓ} (m : Prog S A) (Q : A → S → Type 0) (R : B → S → Type 0) where
  pub OnReturn-bind :
      (f : A → Prog S B) (s : S)
      → OnReturn Q (m s)
      → ((a : A) (t : S) → Q a t → OnReturn R (f a t))
      → OnReturn R ((m >>= f) s)
  OnReturn-bind f s = go (m s)
    where
      go :
          (r : Option (A × S))
          → OnReturn Q r
          → ((a : A) (t : S) → Q a t → OnReturn R (f a t))
          → OnReturn R (elim r as (λ _. Option (B × S)) [ none ↦ none | some (a, t) ↦ f a t ])
      go none h k = tt
      go (some (a, t)) h k = k a t h

module _ {ℓ} {S A B : Type ℓ} (R : B → S → Type 0) where
  -- What needs an answer, and what follows it.
  pub OnReturn-lift :
      (o : Option A) (f : A → Prog S B) (s : S)
      → ((a : A) → OnReturn R (f a s))
      → OnReturn R ((lift o >>= f) s)
  OnReturn-lift none f s k = tt
  OnReturn-lift (some a) f s k = k a
