-- ===== src/Base/Plan.antt =====
-- What a function that stops at its first failing call should do: a list of calls, each with a
-- test of its answer.
use mathlib.Core.Bool.{Bool, true, false}
use mathlib.Core.List.{List, [], ◌∷◌}
use studio.Base.Tests.{if◌then◌else◌}
use studio.Base.Trace.{Log, call}

-- The call may depend on the answers before it, and both functions read the log for those.
pub record Step {ℓ} (C : Type ℓ) : Type ℓ where
  pub action : Log C → C
  pub succeeds : Log C → Bool

-- Whether all steps succeed, and the log with the calls that are made.
abbrev pub perform {ℓ} : {C : Type ℓ} → List (Step C) → Log C → Bool × Log C
perform [] l = (true, l)
perform (x ∷ xs) l =
    let rest = perform xs (call (x.action l) ∷ l) in
    if x.succeeds (call (x.action l) ∷ l) then rest else (false, call (x.action l) ∷ l)
