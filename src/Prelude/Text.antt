-- ===== src/Prelude/Text.antt =====
-- Python's order on strings: by code points, a prefix first.
use Prim.Native.Nat.{ℕ}
use Prim.Native.Char.{code}
use Prim.Native.String.{String}
use mathlib.Core.Path.{◌≡◌, refl, ap₂}
use mathlib.Core.Logic.{◌⊎◌, inl, inr}
use mathlib.Core.Bool.{Bool, true, false}
use native.Mathlib.Omega.{arith}
use text.Mathlib.TextEquality.{Char-path}
use efloud.Prelude.Tests.{ltb, if◌then◌else◌, nat_eq, ◌==◌}

-- One step of the comparison, from the two code points and the comparison of the rests.
abbrev step_leb : ℕ → ℕ → Bool → Bool
step_leb m n rest = if ltb m n then true else if m == n then rest else false

unfoldable pub str_leb : String → String → Bool
str_leb String.[] t = true
str_leb (String.◌∷◌ c s) String.[] = false
str_leb (String.◌∷◌ c s) (String.◌∷◌ d t) = step_leb (code c) (code d) (str_leb s t)

pub str_leb_total : (s t : String) → (str_leb s t ≡ true) ⊎ (str_leb t s ≡ true)
unfolding str_leb
str_leb_total String.[] t = inl refl
str_leb_total (String.◌∷◌ c s) String.[] = inr refl
str_leb_total (String.◌∷◌ c s) (String.◌∷◌ d t) = ground (arith, str_leb_total s t)

pub str_leb_trans : (s t u : String) → str_leb s t ≡ true → str_leb t u ≡ true → str_leb s u ≡ true
unfolding str_leb
str_leb_trans String.[] t u h k = refl
str_leb_trans (String.◌∷◌ c s) String.[] u h k = ground arith
str_leb_trans (String.◌∷◌ c s) (String.◌∷◌ d t) String.[] h k = ground arith
str_leb_trans (String.◌∷◌ c s) (String.◌∷◌ d t) (String.◌∷◌ e u) h k =
    ground (arith, str_leb_trans s t u)

step_leb_antisymm :
    (m n : ℕ) (p q : Bool)
    → step_leb m n p ≡ true
    → step_leb n m q ≡ true
    → (m ≡ n) × (p ≡ true) × (q ≡ true)
step_leb_antisymm m n p q h k = ground arith

pub str_leb_antisymm : (s t : String) → str_leb s t ≡ true → str_leb t s ≡ true → s ≡ t
unfolding str_leb
str_leb_antisymm String.[] String.[] h k = refl
str_leb_antisymm String.[] (String.◌∷◌ d t) h k = ground arith
str_leb_antisymm (String.◌∷◌ c s) String.[] h k = ground arith
str_leb_antisymm (String.◌∷◌ c s) (String.◌∷◌ d t) h k =
    let e = step_leb_antisymm (code c) (code d) (str_leb s t) (str_leb t s) h k in
    ap₂ String.◌∷◌ (Char-path c d e.0) (str_leb_antisymm s t e.1 e.2)
