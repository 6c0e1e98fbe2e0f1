-- ===== src/Prelude/Maps.antt =====
-- Rust's `HashMap`: a list of its entries, in the order of its iterators. That order is not specified:
-- the entries are in any order, and a new entry goes to the end of them.
use mathlib.Core.Path.{◌≡◌, refl, sym, ap, ◌∙◌}
use mathlib.Core.Logic.{◌≢◌, ◌⊎◌, inl, inr}
use mathlib.Core.Bool.{Bool, true, false}
use mathlib.Core.Option.{Option, none, some}
use mathlib.Core.List.{List, [], ◌∷◌}
use native.Mathlib.Omega.{arith}
use Prim.Native.String.{String}
use Prim.Native.Nat.{ℕ}
use rsfu.Prelude.Tests.{if◌then◌else◌, ◌==◌, ==_iff, Bool-cases}
use rsfu.Prelude.Texts.{same, same-cases}

-- The test of a type of keys.
pub record Key {ℓ} (K : Type ℓ) : Type ℓ where
  pub test : K → K → Bool
  pub test-cases : (a b : K) → ((test a b ≡ true) × (a ≡ b)) ⊎ ((test a b ≡ false) × (a ≢ b))

instance abbrev pub text_key : Key String
text_key = record { test = same; test-cases = same-cases }

pub number_cases : (a b : ℕ) → (((a == b) ≡ true) × (a ≡ b)) ⊎ (((a == b) ≡ false) × (a ≢ b))
number_cases a b = elim (Bool-cases (a == b)) [
  | inl e ↦ inl (e, (==_iff a b).0 e)
  | inr e ↦ inr (e, λ p. ground (arith, p, e))
]

instance abbrev pub number_key : Key ℕ
number_key = record { test = λ a b. a == b; test-cases = number_cases }

abbrev pub HashMap {ℓ κ} : Type ℓ → Type κ → Type (ℓ ⊔ κ)
HashMap K A = List (K × A)

module _ {ℓ} {K : Type ℓ} ⦃k : Key K⦄ where
  pub test_self : (key : K) → k.test key key ≡ true
  test_self key = elim (k.test-cases key key) [ inl (e, _) ↦ e | inr (_, ne) ↦ absurd (ne refl) ]

  pub test_eq : (a b : K) → k.test a b ≡ true → a ≡ b
  test_eq a b h = elim (k.test-cases a b) [
    | inl (_, p) ↦ p
    | inr (e, _) ↦ absurd (false-true (k.test a b) e h)
  ]
    where
      false-true : (b : Bool) → b ≡ false → b ≡ true → ⊥
      false-true b f t = ground arith

  pub test_ne : (a b : K) → a ≢ b → k.test a b ≡ false
  test_ne a b ne = elim (k.test-cases a b) [ inl (_, p) ↦ absurd (ne p) | inr (e, _) ↦ e ]

  pub test_sym : (a b : K) → k.test a b ≡ false → k.test b a ≡ false
  test_sym a b e = elim (k.test-cases b a) [ inl (_, p) ↦ cc | inr (e', _) ↦ e' ]

module _ {ℓ κ} {K : Type ℓ} {A : Type κ} ⦃k : Key K⦄ where
  unfoldable pub lookup : HashMap K A → K → Option A
  lookup [] key = none
  lookup ((key', a) ∷ m) key = let rest = lookup m key in if k.test key' key then some a else rest

  unfoldable pub insert : HashMap K A → K → A → HashMap K A
  insert [] key a = (key, a) ∷ []
  insert ((key', a') ∷ m) key a =
      let rest = insert m key a in if k.test key' key then (key', a) ∷ m else (key', a') ∷ rest

  unfoldable pub remove : HashMap K A → K → HashMap K A
  remove [] key = []
  remove ((key', a) ∷ m) key =
      let rest = remove m key in if k.test key' key then rest else (key', a) ∷ rest

  pub lookup-insert_self :
      (m : HashMap K A) (key : K) (a : A) → lookup (insert m key a) key ≡ some a
  unfolding lookup insert
  lookup-insert_self [] key a = rw (test_self key) refl
  lookup-insert_self ((key', a') ∷ m) key a = elim (Bool-cases (k.test key' key)) [
    | inl e ↦ rw (e, e) refl
    | inr e ↦ rw (e, e) (lookup-insert_self m key a)
  ]

  pub lookup-insert_ne :
      (m : HashMap K A) (key other : K) (a : A)
      → k.test key other ≡ false
      → lookup (insert m key a) other ≡ lookup m other
  unfolding lookup insert
  lookup-insert_ne [] key other a ne = rw ne refl
  lookup-insert_ne ((key', a') ∷ m) key other a ne = elim (k.test-cases key' key) [
    | inl (e, p) ↦ simp (p, test_self key, ne)
    | inr (e, _) ↦ simp (e, lookup-insert_ne m key other a ne)
  ]

  pub lookup-insert :
      (m : HashMap K A) (key other : K) (a : A)
      → lookup (insert m key a) other ≡ (if k.test key other then some a else lookup m other)
  lookup-insert m key other a = elim (k.test-cases key other) [
    | inl (e, p) ↦ rw (p, test_self other) (lookup-insert_self m other a)
    | inr (e, _) ↦ rw e (lookup-insert_ne m key other a e)
  ]

  pub lookup-remove_self : (m : HashMap K A) (key : K) → lookup (remove m key) key ≡ none
  unfolding lookup remove
  lookup-remove_self [] key = refl
  lookup-remove_self ((key', a) ∷ m) key = elim (Bool-cases (k.test key' key)) [
    | inl e ↦ rw e (lookup-remove_self m key)
    | inr e ↦ rw (e, e) (lookup-remove_self m key)
  ]

  pub lookup-remove_ne :
      (m : HashMap K A) (key other : K)
      → k.test key other ≡ false
      → lookup (remove m key) other ≡ lookup m other
  unfolding lookup remove
  lookup-remove_ne [] key other ne = refl
  lookup-remove_ne ((key', a) ∷ m) key other ne = elim (k.test-cases key' key) [
    | inl (e, p) ↦ simp (p, test_self key, ne, lookup-remove_ne m key other ne)
    | inr (e, _) ↦ simp (e, lookup-remove_ne m key other ne)
  ]

  -- What is put in under a new key and taken out leaves the map as it was.
  pub remove-insert :
      (m : HashMap K A) (key : K) (a : A) → lookup m key ≡ none → remove (insert m key a) key ≡ m
  unfolding lookup insert remove
  remove-insert [] key a h = rw (test_self key) refl
  remove-insert ((key', a') ∷ m) key a h = elim (Bool-cases (k.test key' key)) [
    | inl e ↦ ground (arith, e, h)
    | inr e ↦
        let rest = ap (λ b. if b then some a' else lookup m key) (sym e) ∙ h in
        rw (e, e) (ap (λ m'. (key', a') ∷ m') (remove-insert m key a rest))
  ]

  pub insert-insert :
      (m : HashMap K A) (key : K) (a b : A) → insert (insert m key a) key b ≡ insert m key b
  unfolding insert
  insert-insert [] key a b = rw (test_self key) refl
  insert-insert ((key', a') ∷ m) key a b = elim (Bool-cases (k.test key' key)) [
    | inl e ↦ rw (e, e) refl
    | inr e ↦ rw (e, e) (ap (λ m'. (key', a') ∷ m') (insert-insert m key a b))
  ]
