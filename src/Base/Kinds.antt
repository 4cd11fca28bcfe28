-- ===== src/Base/Kinds.antt =====
-- Calls of one kind only, above those that were made before.
use mathlib.Core.Bool.{Bool, true}
use mathlib.Core.List.{List, [], ◌∷◌, ◌++◌, append_assoc}
use mathlib.Core.Path.{◌≡◌, refl, sym, ap, ◌∙◌}

abbrev pub AllAre {ℓ} : {C : Type ℓ} → (C → Bool) → List C → Type 0
AllAre p [] = Unit
AllAre p (c ∷ cs) = (p c ≡ true) × AllAre p cs

abbrev pub Made {ℓ} : {C : Type ℓ} → (C → Bool) → List C → List C → Type ℓ
Made {C} p l l' = (cs : List C) × (l' ≡ cs ++ l) × AllAre p cs

module _ {ℓ} {C : Type ℓ} (p : C → Bool) where
  AllAre-append : (cs ds : List C) → AllAre p cs → AllAre p ds → AllAre p (cs ++ ds)
  AllAre-append [] ds h k = k
  AllAre-append (c ∷ cs) ds h k = (h.0, AllAre-append cs ds h.1 k)

  pub Made-none : (l : List C) → Made p l l
  Made-none l = ([], refl, tt)

  pub Made-one : (c : C) (l : List C) → p c ≡ true → Made p l (c ∷ l)
  Made-one c l h = (c ∷ [], refl, (h, tt))

  pub Made-trans : (l m n : List C) → Made p l m → Made p m n → Made p l n
  Made-trans l m n (cs, e, h) (ds, f, k) =
      (ds ++ cs, f ∙ ap (◌++◌ ds) e ∙ sym (append_assoc ds cs l), AllAre-append ds cs k h)
