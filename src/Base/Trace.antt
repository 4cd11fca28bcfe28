-- ===== src/Base/Trace.antt =====
-- What a command does to the outside, in a log with the newest entry first: the lines that it
-- prints, and its calls of the system, of a type `C` that each component declares.
use mathlib.Core.List.{List, [], ◌∷◌}
use Prim.Native.Nat.{ℕ}
use Prim.Native.String.{String}
use studio.Base.Int.{ℤ}
use studio.Base.Text.{Bytes}

-- An argument of `printf`.
pub data Val : Type 0 where
  num : ℕ → Val
  int : ℤ → Val
  str : Bytes → Val

pub data Event {ℓ} (C : Type ℓ) : Type ℓ where
  puts : String → Event C
  printf : String → List Val → Event C
  od_hex_dump : Bytes → Event C
  call : C → Event C

abbrev pub Log {ℓ} : Type ℓ → Type ℓ
Log C = List (Event C)

-- The calls alone.
abbrev pub calls {ℓ} : {C : Type ℓ} → Log C → List C
calls [] = []
calls (call c ∷ l) = c ∷ calls l
calls (puts _ ∷ l) = calls l
calls (printf _ _ ∷ l) = calls l
calls (od_hex_dump _ ∷ l) = calls l
