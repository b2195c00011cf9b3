-- ===== src/Input.antt =====
-- Controller input: the vocabulary that the broker's parts share. `Control` and `OutputKey` are
-- services/hearthdeck-input/src/mapping.rs, `Action` is services/hearthdeck-protocol/src/input.rs.
pub mod Ownership
pub mod Mapper
pub mod Axis
pub mod Protocol
pub mod Broker
use hearthdeck.Prelude.{
  ℕ, zero, suc, ◌≡◌, refl, ap, sym, ◌∙◌, ◌↔◌, ◌+◌, arith, ◌&&◌, Bool, true, Option, none, some, Eq,
  ◌==◌, ==_iff,
}

pub data Control : Type 0 where
  other : ℕ → Control
  guide pointer_left pointer_right pointer_up pointer_down : Control
  south east west north left_bumper right_bumper start select : Control
  dpad_left dpad_right dpad_up dpad_down : Control
  stick_left stick_right stick_up stick_down left_trigger right_trigger : Control

pub data Action : Type 0 where
  move_up move_down move_left move_right confirm back search_box context_menu : Action
  prev_group next_group prev_tab next_tab filter_panel open_keyboard toggle_overlay : Action

pub data OutputKey : Type 0 where
  enter escape space tab page_up page_down left right up down mouse_left mouse_right : OutputKey

-- The derived equality of `Control`, by the position of the variant.
abbrev pub control_code : Control → ℕ
control_code guide = 0
control_code pointer_left = 1
control_code pointer_right = 2
control_code pointer_up = 3
control_code pointer_down = 4
control_code south = 5
control_code east = 6
control_code west = 7
control_code north = 8
control_code left_bumper = 9
control_code right_bumper = 10
control_code start = 11
control_code select = 12
control_code dpad_left = 13
control_code dpad_right = 14
control_code dpad_up = 15
control_code dpad_down = 16
control_code stick_left = 17
control_code stick_right = 18
control_code stick_up = 19
control_code stick_down = 20
control_code left_trigger = 21
control_code right_trigger = 22
control_code (other n) = 23 + n

control_code-injective : (c d : Control) → control_code c ≡ control_code d → c ≡ d
control_code-injective guide d h = ground arith
control_code-injective c d h = ground arith

pub control_iff : (c d : Control) → ((control_code c == control_code d) ≡ true) ↔ (c ≡ d)
control_iff c d =
    (λ h. control_code-injective c d ((==_iff _ _).0 h), λ h. (==_iff _ _).1 (ap control_code h))

instance abbrev pub control_eq : Eq Control
control_eq = record { beq = λ c d. control_code c == control_code d; beq_iff = control_iff }

-- The derived equality of `Action`, by the position of the variant.
abbrev pub action_code : Action → ℕ
action_code move_up = 0
action_code move_down = 1
action_code move_left = 2
action_code move_right = 3
action_code confirm = 4
action_code back = 5
action_code search_box = 6
action_code context_menu = 7
action_code prev_group = 8
action_code next_group = 9
action_code prev_tab = 10
action_code next_tab = 11
action_code filter_panel = 12
action_code open_keyboard = 13
action_code toggle_overlay = 14

action_code-injective : (a b : Action) → action_code a ≡ action_code b → a ≡ b
action_code-injective move_up b h = ground arith
action_code-injective a b h = ground arith

pub action_iff : (a b : Action) → ((action_code a == action_code b) ≡ true) ↔ (a ≡ b)
action_iff a b =
    (λ h. action_code-injective a b ((==_iff _ _).0 h), λ h. (==_iff _ _).1 (ap action_code h))

instance abbrev pub action_eq : Eq Action
action_eq = record { beq = λ a b. action_code a == action_code b; beq_iff = action_iff }

-- The derived equality of `OutputKey`, by the position of the variant.
abbrev pub output_key_code : OutputKey → ℕ
output_key_code enter = 0
output_key_code escape = 1
output_key_code space = 2
output_key_code tab = 3
output_key_code page_up = 4
output_key_code page_down = 5
output_key_code left = 6
output_key_code right = 7
output_key_code up = 8
output_key_code down = 9
output_key_code mouse_left = 10
output_key_code mouse_right = 11

output_key_code-injective : (a b : OutputKey) → output_key_code a ≡ output_key_code b → a ≡ b
output_key_code-injective enter b h = ground arith
output_key_code-injective a b h = ground arith

pub output_key_iff : (a b : OutputKey) → ((output_key_code a == output_key_code b) ≡ true) ↔ (a ≡ b)
output_key_iff a b = (
  λ h. output_key_code-injective a b ((==_iff _ _).0 h),
  λ h. (==_iff _ _).1 (ap output_key_code h),
)

instance abbrev pub output_key_eq : Eq OutputKey
output_key_eq = record {
  beq = λ a b. output_key_code a == output_key_code b;
  beq_iff = output_key_iff;
}

-- The equality of a source of a key, a device and a control of it.
pub source_iff :
    (a b : ℕ × Control) → ((a.0 == b.0 && control_code a.1 == control_code b.1) ≡ true) ↔ (a ≡ b)
source_iff (d, c) (e, f) = (
  same,
  λ h.
      ground (arith, ap (λ (s : ℕ × Control). control_code s.1) h, ap (λ (s : ℕ × Control). s.0) h),
)
  where
    same : (d == e && control_code c == control_code f) ≡ true → ◌≡◌ {A = ℕ × Control} (d, c) (e, f)
    same h = ground (arith, control_code-injective c f)

instance abbrev pub source_eq : Eq (ℕ × Control)
source_eq = record {
  beq = λ a b. a.0 == b.0 && control_code a.1 == control_code b.1;
  beq_iff = source_iff;
}
