-- ===== src/Prelude/Sort.antt =====
-- `sorted`: a stable sort by a test, and what it keeps.
use Prim.Native.Nat.{ℕ, suc}
use Prim.Native.String.{String}
use mathlib.Core.Path.{◌≡◌, refl, subst}
use mathlib.Core.Option.{none, some, some-injective}
use mathlib.Core.Logic.{◌↔◌, ◌⊎◌, inl, inr}
use mathlib.Core.Bool.{Bool, true, false}
use mathlib.Core.List.{List, [], ◌∷◌}
use native.Mathlib.Omega.{arith}
use efloud.Prelude.Tests.{ltb, if◌then◌else◌, nat_eq, string_eq, ◌==◌, Bool-cases}
use efloud.Prelude.Lists.{length, All, Member, All-of, All-at, max_by, max_onto}
use efloud.Prelude.Text.{str_leb, str_leb_total, str_leb_trans, str_leb_antisymm}

-- A test that orders any two values, and chains.
pub record IsOrder {ℓ} {A : Type ℓ} (le : A → A → Bool) : Type ℓ where
  pub total : (a b : A) → (le a b ≡ true) ⊎ (le b a ≡ true)
  pub trans : (a b c : A) → le a b ≡ true → le b c ≡ true → le a c ≡ true

module _ {ℓ} {A : Type ℓ} where
  unfoldable pub insert : (A → A → Bool) → A → List A → List A
  insert le x [] = x ∷ []
  insert le x (y ∷ ys) = if le x y then x ∷ y ∷ ys else y ∷ insert le x ys

  -- `sorted(xs)`: what comes first stays first among equals.
  unfoldable pub sort : (A → A → Bool) → List A → List A
  unfolding insert
  sort le [] = []
  sort le (x ∷ xs) = insert le x (sort le xs)

  -- `sorted(xs, reverse=True)` keeps the order of equals too.
  abbrev pub flip : (A → A → Bool) → A → A → Bool
  flip le a b = le b a

  -- Each element is before all that follow it.
  abbrev pub Sorted : (A → A → Bool) → List A → Type 0
  Sorted le [] = Unit
  Sorted le (x ∷ xs) = All (λ y. le x y ≡ true) xs × Sorted le xs

-- Python's order on a pair of a time and a string.
abbrev pub stamp_leb : ℕ × String → ℕ × String → Bool
stamp_leb (t, s) (u, r) = if ltb t u then true else if t == u then str_leb s r else false

module _ {ℓ} {A : Type ℓ} (le : A → A → Bool) where
  Member-insert : (a x : A) (ys : List A) → Member a (insert le x ys) ↔ ((a ≡ x) ⊎ Member a ys)
  unfolding insert
  Member-insert a x [] = ground arith
  Member-insert a x (y ∷ ys) = ground (arith, Member-insert a x ys)

  pub Member-sort : (a : A) (xs : List A) → Member a (sort le xs) ↔ Member a xs
  unfolding sort
  Member-sort a [] = ground arith
  Member-sort a (x ∷ xs) = ground (arith, Member-insert a x (sort le xs), Member-sort a xs)

  length-insert : (x : A) (ys : List A) → length (insert le x ys) ≡ suc (length ys)
  unfolding insert
  length-insert x [] = refl
  length-insert x (y ∷ ys) = ground (arith, length-insert x ys)

  pub length-sort : (xs : List A) → length (sort le xs) ≡ length xs
  unfolding sort
  length-sort [] = refl
  length-sort (x ∷ xs) = omega (arith, length-insert x (sort le xs), length-sort xs)

module _ {ℓ} {A : Type ℓ} {le : A → A → Bool} (o : IsOrder le) where
  pub not_le : (x y : A) → le x y ≡ false → le y x ≡ true
  not_le x y h = ground (arith, o.total x y)

  insert-Sorted : (x : A) (ys : List A) → Sorted le ys → Sorted le (insert le x ys)
  unfolding insert
  insert-Sorted x [] s = (tt, tt)
  insert-Sorted x (y ∷ ys) s = elim (Bool-cases (le x y)) [
    | inl h ↦ rw h ((h, All-of _ ys (λ a m. o.trans x y a h (All-at _ a ys s.0 m))), s)
    | inr h ↦ rw h (
      All-of _ (insert le x ys) (λ a m. elim ((Member-insert le a x ys).0 m) [
        | inl e ↦ rw e (not_le x y h)
        | inr r ↦ All-at _ a ys s.0 r
      ]),
      insert-Sorted x ys s.1,
    )
  ]

  pub sort-Sorted : (xs : List A) → Sorted le (sort le xs)
  unfolding sort
  sort-Sorted [] = tt
  sort-Sorted (x ∷ xs) = insert-Sorted x (sort le xs) (sort-Sorted xs)

module _ {ℓ κ} {A : Type ℓ} {B : Type κ} {le : B → B → Bool} (o : IsOrder le) (key : A → B) where
  -- `sorted(xs, key=key)`
  pub IsOrder-key : IsOrder (λ a b. le (key a) (key b))
  IsOrder-key = record {
    total = λ a b. o.total (key a) (key b);
    trans = λ a b c h k. o.trans (key a) (key b) (key c) h k;
  }

pub IsOrder-flip {ℓ} : {A : Type ℓ} {le : A → A → Bool} → IsOrder le → IsOrder (flip le)
IsOrder-flip o = record { total = λ a b. o.total b a; trans = λ a b c h k. o.trans c b a k h }

pub str_leb-IsOrder : IsOrder str_leb
str_leb-IsOrder = record { total = str_leb_total; trans = str_leb_trans }

stamp_total : (p q : ℕ × String) → (stamp_leb p q ≡ true) ⊎ (stamp_leb q p ≡ true)
stamp_total (t, s) (u, r) = ground (arith, str_leb_total s r)

stamp_trans :
    (p q w : ℕ × String) → stamp_leb p q ≡ true → stamp_leb q w ≡ true → stamp_leb p w ≡ true
stamp_trans (t, s) (u, r) (v, z) h k = ground (arith, str_leb_trans s r z)

pub stamp_leb-IsOrder : IsOrder stamp_leb
stamp_leb-IsOrder = record { total = stamp_total; trans = stamp_trans }

pub stamp_antisymm : (p q : ℕ × String) → stamp_leb p q ≡ true → stamp_leb q p ≡ true → p ≡ q
stamp_antisymm (t, s) (u, r) h k = ground (arith, str_leb_antisymm s r)

-- `best` is in the list, and nothing in the list is after it.
pub record IsMax {ℓ} {A : Type ℓ} (le : A → A → Bool) (xs : List A) (best : A) : Type ℓ where
  pub there : Member best xs
  pub above : (x : A) → Member x xs → le x best ≡ true

module _ {ℓ} {A : Type ℓ} {le : A → A → Bool} (o : IsOrder le) where
  le_refl_of_order : (x : A) → le x x ≡ true
  le_refl_of_order x = ground (arith, o.total x x)

  max_onto-IsMax : (x : A) (xs : List A) → IsMax le (x ∷ xs) (max_onto le x xs)
  max_onto-IsMax x [] = record {
    there = inl refl;
    above = λ y m. elim m [ inl e ↦ rw e (le_refl_of_order x) | inr r ↦ absurd (r tt) ];
  }
  max_onto-IsMax x (y ∷ ys) = elim (Bool-cases (le y x)) [
    | inl h ↦
        let k = max_onto-IsMax x ys in
        rw h (record {
          there = elim k.there [ inl e ↦ inl e | inr r ↦ inr (inr r) ];
          above = λ z m. elim m [
            | inl e ↦ k.above z (inl e)
            | inr (inl e) ↦ o.trans z x _ (rw e h) (k.above x (inl refl))
            | inr (inr r) ↦ k.above z (inr r)
          ];
        })
    | inr h ↦
        let k = max_onto-IsMax y ys in
        rw h (record {
          there = inr k.there;
          above = λ z m. elim m [
            | inl e ↦ o.trans z y _ (rw e (not_le o y x h)) (k.above y (inl refl))
            | inr r ↦ k.above z r
          ];
        })
  ]

  pub max_by-IsMax : (xs : List A) (m : A) → max_by le xs ≡ some m → IsMax le xs m
  max_by-IsMax [] m h = cc
  max_by-IsMax (x ∷ xs) m h = subst (IsMax le (x ∷ xs)) (some-injective _ _ h) (max_onto-IsMax x xs)

pub max_by-none {ℓ} : {A : Type ℓ} (le : A → A → Bool) (xs : List A) → max_by le xs ≡ none → xs ≡ []
max_by-none le [] h = refl
max_by-none le (x ∷ xs) h = cc

module _ {ℓ} {A : Type ℓ} (le : A → A → Bool) where
  -- The head of a sorted list is before all of it.
  pub Sorted-head : (x : A) (xs : List A) (y : A) → Sorted le (x ∷ xs) → Member y xs → le x y ≡ true
  Sorted-head x xs y s m = All-at (λ z. le x z ≡ true) y xs s.0 m

-- Python's order on a pair of strings.
abbrev pub text_pair_leb : String × String → String × String → Bool
text_pair_leb (a, b) (c, d) = if a == c then str_leb b d else str_leb a c

text_pair_total : (p q : String × String) → (text_pair_leb p q ≡ true) ⊎ (text_pair_leb q p ≡ true)
text_pair_total (a, b) (c, d) =
    ground
      (arith, str_leb_total b d, str_leb_total a c, string_eq.beq_iff a c, string_eq.beq_iff c a)

text_pair_trans :
    (p q w : String × String)
    → text_pair_leb p q ≡ true
    → text_pair_leb q w ≡ true
    → text_pair_leb p w ≡ true
text_pair_trans (a, b) (c, d) (e, f) h k = ground (
  arith,
  str_leb_trans b d f,
  str_leb_trans a c e,
  string_eq.beq_iff a c,
  string_eq.beq_iff c e,
  string_eq.beq_iff a e,
  str_leb_antisymm a c,
)

pub text_pair_leb-IsOrder : IsOrder text_pair_leb
text_pair_leb-IsOrder = record { total = text_pair_total; trans = text_pair_trans }
