-- ===== src/Prelude/Maps.antt =====
-- Hash maps and hash sets as association lists and lists without repetition, over keys with a
-- Boolean equality. The order of iteration is the order of the list.
use Prim.Native.Nat.{ℕ}
use mathlib.Core.Path.{◌≡◌, refl}
use mathlib.Core.Logic.{◌↔◌}
use mathlib.Core.Bool.{Bool, true, false, ◌||◌}
use mathlib.Core.Option.{Option, none, some}
use mathlib.Core.List.{List, [], ◌∷◌}
use native.Mathlib.Omega.{arith}
use hearthdeck.Prelude.Tests.{if◌then◌else◌, ◌==◌, ==_iff}

pub record Eq {ℓ} (A : Type ℓ) : Type ℓ where
  pub beq : A → A → Bool
  pub beq_iff : (a b : A) → (beq a b ≡ true) ↔ (a ≡ b)

infix 50 ◌=?◌
abbrev pub ◌=?◌ {ℓ} : {A : Type ℓ} ⦃e : Eq A⦄ → A → A → Bool
◌=?◌ ⦃e⦄ = e.beq

instance abbrev pub nat_eq : Eq ℕ
nat_eq = record { beq = ◌==◌; beq_iff = ==_iff }

-- A hash set: `insert` and `remove` report whether the set changed.
module _ {ℓ} {A : Type ℓ} ⦃e : Eq A⦄ where
  unfoldable pub contains : A → List A → Bool
  contains a [] = false
  contains a (x ∷ xs) = x =? a || contains a xs

  unfoldable pub delete : A → List A → List A
  delete a [] = []
  delete a (x ∷ xs) = if x =? a then delete a xs else x ∷ delete a xs

  unfoldable pub insert_item : A → List A → List A
  insert_item a xs = if contains a xs then xs else a ∷ xs

  pub contains-delete :
      (a b : A) (xs : List A) → contains b (delete a xs) ≡ (if a =? b then false else contains b xs)
  unfolding contains delete
  contains-delete a b [] = ground arith
  contains-delete a b (x ∷ xs) =
      ground (arith, e.beq_iff x a, e.beq_iff x b, e.beq_iff a b, contains-delete a b xs)

  pub contains-insert_item :
      (a b : A) (xs : List A) → contains b (insert_item a xs) ≡ (a =? b || contains b xs)
  unfolding contains insert_item
  contains-insert_item a b xs = ground (arith, e.beq_iff a b)

  pub delete_absent : (a : A) (xs : List A) → contains a xs ≡ false → delete a xs ≡ xs
  unfolding contains delete
  delete_absent a [] h = refl
  delete_absent a (x ∷ xs) h = ground (arith, delete_absent a xs)

  pub insert_item_present : (a : A) (xs : List A) → contains a xs ≡ true → insert_item a xs ≡ xs
  unfolding insert_item
  insert_item_present a xs h = rw h

module _ {ℓ κ} {K : Type ℓ} {V : Type κ} ⦃e : Eq K⦄ where
  unfoldable pub lookup : K → List (K × V) → Option V
  lookup k [] = none
  lookup k ((j, v) ∷ m) = if j =? k then some v else lookup k m

  -- A key keeps its place; a new one goes to the end.
  unfoldable pub insert : K → V → List (K × V) → List (K × V)
  insert k v [] = (k, v) ∷ []
  insert k v ((j, w) ∷ m) = if j =? k then (k, v) ∷ m else (j, w) ∷ insert k v m

  unfoldable pub remove : K → List (K × V) → List (K × V)
  remove k [] = []
  remove k ((j, w) ∷ m) = if j =? k then remove k m else (j, w) ∷ remove k m

  pub lookup-insert :
      (k j : K) (v : V) (m : List (K × V))
      → lookup j (insert k v m) ≡ (if k =? j then some v else lookup j m)
  unfolding lookup insert
  lookup-insert k j v [] = refl
  lookup-insert k j v ((i, w) ∷ m) =
      ground (arith, e.beq_iff k j, e.beq_iff i k, e.beq_iff i j, lookup-insert k j v m)

  pub lookup-remove :
      (k j : K) (m : List (K × V)) → lookup j (remove k m) ≡ (if k =? j then none else lookup j m)
  unfolding lookup remove
  lookup-remove k j [] = ground arith
  lookup-remove k j ((i, w) ∷ m) =
      ground (arith, e.beq_iff k j, e.beq_iff i k, e.beq_iff i j, lookup-remove k j m)
