-- ===== src/Prelude/Equality.antt =====
-- The derived equality of options, pairs, lists and integers.
use hearthdeck.Prelude.Maps.{Eq, ◌=?◌, nat_eq}
use hearthdeck.Prelude.Int.{ℤ, pos, negsuc}
use mathlib.Core.Path.{◌≡◌}
use mathlib.Core.Logic.{◌↔◌}
use mathlib.Core.Bool.{Bool, true, false, ◌&&◌}
use mathlib.Core.Option.{Option, none, some}
use mathlib.Core.List.{List, [], ◌∷◌}
use native.Mathlib.Omega.{arith}

abbrev pub same_int : ℤ → ℤ → Bool
same_int (pos a) (pos b) = a =? b
same_int (negsuc a) (negsuc b) = a =? b
same_int _ _ = false

pub same_int_iff : (a b : ℤ) → (same_int a b ≡ true) ↔ (a ≡ b)
same_int_iff (pos a) (pos b) = ground (arith, nat_eq.beq_iff a b)
same_int_iff (negsuc a) (negsuc b) = ground (arith, nat_eq.beq_iff a b)
same_int_iff (pos a) (negsuc b) = ground arith
same_int_iff (negsuc a) (pos b) = ground arith

instance abbrev pub int_eq : Eq ℤ
int_eq = record { beq = same_int; beq_iff = same_int_iff }

module _ {A : Type 0} ⦃e : Eq A⦄ where
  abbrev pub same_option : Option A → Option A → Bool
  same_option none none = true
  same_option (some a) (some b) = a =? b
  same_option _ _ = false

  pub same_option_iff : (a b : Option A) → (same_option a b ≡ true) ↔ (a ≡ b)
  same_option_iff none none = ground arith
  same_option_iff (some a) (some b) = ground (arith, e.beq_iff a b)
  same_option_iff none (some b) = ground arith
  same_option_iff (some a) none = ground arith

  instance abbrev pub option_eq : Eq (Option A)
  option_eq = record { beq = same_option; beq_iff = same_option_iff }

  abbrev pub same_list : List A → List A → Bool
  same_list [] [] = true
  same_list (a ∷ xs) (b ∷ ys) = a =? b && same_list xs ys
  same_list _ _ = false

  pub same_list_iff : (a b : List A) → (same_list a b ≡ true) ↔ (a ≡ b)
  same_list_iff [] [] = ground arith
  same_list_iff (a ∷ xs) (b ∷ ys) = ground (arith, e.beq_iff a b, same_list_iff xs ys)
  same_list_iff [] (b ∷ ys) = ground arith
  same_list_iff (a ∷ xs) [] = ground arith

  instance abbrev pub list_eq : Eq (List A)
  list_eq = record { beq = same_list; beq_iff = same_list_iff }

module _ {A B : Type 0} ⦃e : Eq A⦄ ⦃f : Eq B⦄ where
  abbrev pub same_pair : A × B → A × B → Bool
  same_pair (a, b) (c, d) = a =? c && b =? d

  pub same_pair_iff : (p q : A × B) → (same_pair p q ≡ true) ↔ (p ≡ q)
  same_pair_iff (a, b) (c, d) = ground (arith, e.beq_iff a c, f.beq_iff b d)

  instance abbrev pub pair_eq : Eq (A × B)
  pair_eq = record { beq = same_pair; beq_iff = same_pair_iff }
