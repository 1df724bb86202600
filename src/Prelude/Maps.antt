-- ===== src/Prelude/Maps.antt =====
-- Go strings as lists of bytes, and Go maps with string keys as association lists.
use Prim.Native.Nat.{ℕ}
use Prim.Native.Char.{code}
use Prim.Native.String.{String}
use mathlib.Core.Path.{◌≡◌, refl}
use mathlib.Core.Logic.{◌↔◌, ◌⊎◌, inl, inr}
use mathlib.Core.Bool.{Bool, true, false, ◌&&◌}
use mathlib.Core.Option.{Option, none, some}
use mathlib.Core.List.{List, [], ◌∷◌}
use native.Mathlib.Omega.{arith}
use device_wiresink_go.Prelude.Tests.{Bool-cases, ◌==◌, if◌then◌else◌}

abbrev pub Bytes : Type 0
Bytes = List ℕ

abbrev pub Text : Type 0
Text = List ℕ

-- The bytes of a literal; every literal of the development is ASCII.
abbrev pub codes : String → Text
codes String.[] = []
codes (String.◌∷◌ c s) = code c ∷ codes s

unfoldable pub text_eq : Text → Text → Bool
text_eq [] [] = true
text_eq (x ∷ xs) (y ∷ ys) = x == y && text_eq xs ys
text_eq _ _ = false

pub text_eq_iff : (a b : Text) → (text_eq a b ≡ true) ↔ (a ≡ b)
unfolding text_eq
text_eq_iff [] [] = ground arith
text_eq_iff (x ∷ a) (y ∷ b) = ground (arith, text_eq_iff a b)
text_eq_iff _ _ = ground arith

pub text_eq_refl : (a : Text) → text_eq a a ≡ true
text_eq_refl a = (text_eq_iff a a).1 refl

abbrev pub Assoc {ℓ} : Type ℓ → Type ℓ
Assoc V = List (Text × V)

module _ {ℓ} {V : Type ℓ} where
  -- `m[k]`, with its `ok`.
  unfoldable pub lookup : Text → Assoc V → Option V
  lookup k [] = none
  lookup k ((j, v) ∷ m) = if text_eq j k then some v else lookup k m

  -- `m[k] = v`.
  unfoldable pub insert : Text → V → Assoc V → Assoc V
  insert k v [] = (k, v) ∷ []
  insert k v ((j, w) ∷ m) = if text_eq j k then (k, v) ∷ m else (j, w) ∷ insert k v m

  -- `delete(m, k)`.
  unfoldable pub delete : Text → Assoc V → Assoc V
  delete k [] = []
  delete k ((j, v) ∷ m) = let rest = delete k m in if text_eq j k then rest else (j, v) ∷ rest

  pub lookup-insert :
      (k j : Text) (v : V) (m : Assoc V)
      → lookup j (insert k v m) ≡ (if text_eq k j then some v else lookup j m)
  unfolding lookup insert
  lookup-insert k j v [] = refl
  lookup-insert k j v ((i, w) ∷ m) =
      ground (arith, text_eq_iff k j, text_eq_iff i k, text_eq_iff i j, lookup-insert k j v m)

  pub lookup-delete :
      (k j : Text) (m : Assoc V)
      → lookup j (delete k m) ≡ (if text_eq k j then none else lookup j m)
  unfolding lookup delete
  lookup-delete k j [] = ground arith
  lookup-delete k j ((i, w) ∷ m) =
      ground (arith, text_eq_iff k j, text_eq_iff i k, text_eq_iff i j, lookup-delete k j m)

  pub lookup-insert_self : (k : Text) (v : V) (m : Assoc V) → lookup k (insert k v m) ≡ some v
  lookup-insert_self k v m = simp (lookup-insert, text_eq_refl)

  -- Every key stands once: what a Go map keeps.
  abbrev pub Distinct : Assoc V → Type ℓ
  Distinct [] = Unit {ℓ}
  Distinct ((k, v) ∷ m) = Distinct m × (lookup k m ≡ none)

  pub insert-Distinct : (k : Text) (v : V) (m : Assoc V) → Distinct m → Distinct (insert k v m)
  unfolding insert
  insert-Distinct k v [] h = (tt, unfold lookup in refl)
  insert-Distinct k v ((j, w) ∷ m) (h, fresh) =
      ground
        (arith, text_eq_iff j k, text_eq_iff k j, lookup-insert k j v m, insert-Distinct k v m h)

  pub delete-Distinct : (k : Text) (m : Assoc V) → Distinct m → Distinct (delete k m)
  unfolding delete
  delete-Distinct k [] h = h
  delete-Distinct k ((j, w) ∷ m) (h, fresh) =
      ground (arith, lookup-delete k j m, delete-Distinct k m h)

module _ {V : Type 0} where
  -- A pair of the list.
  abbrev pub In : Text → V → Assoc V → Type 0
  In k v [] = ⊥
  In k v ((j, w) ∷ m) = (j ≡ k) × (w ≡ v) ⊎ In k v m

  pub In→lookup : (k : Text) (v : V) (m : Assoc V) → Distinct m → In k v m → lookup k m ≡ some v
  unfolding lookup
  In→lookup k v [] h i = elim i [ ]
  In→lookup k v ((j, w) ∷ m) (h, fresh) (inl (p, q)) = ground (arith, text_eq_iff j k)
  In→lookup k v ((j, w) ∷ m) (h, fresh) (inr i) =
      let found : lookup k m ≡ some v = In→lookup k v m h i in ground (arith, text_eq_iff j k)

  pub lookup→In : (k : Text) (v : V) (m : Assoc V) → lookup k m ≡ some v → In k v m
  unfolding lookup
  lookup→In k v [] e = cc
  lookup→In k v ((j, w) ∷ m) e = elim (Bool-cases (text_eq j k)) [
    | inl same ↦ inl ((text_eq_iff j k).0 same, ground arith)
    | inr other ↦ inr (lookup→In k v m (ground arith))
  ]
