-- ===== src/Input/Axis/Tests.antt =====
-- Runs of the axes and keys, with the values of the code's own tests
-- (services/hearthdeck-input/src/linux.rs).
use hearthdeck.Prelude.{◌≡◌, refl, true, Option, some}
use hearthdeck.Prelude.Int.{pos, negsuc, ◌+ℤ◌, ◌-ℤ◌, ◌*ℤ◌, div_ℤ, clamp_ℤ}
use hearthdeck.Input.Mapper.{Mapper, default, button}
use hearthdeck.Input.Axis.{
  AxisRange, btn_south, normalize_centered, normalize_trigger, map_key, key_control, nonzero,
}
use hearthdeck.Input.Axis.Agree.{map_key-key_control}

abbrev wide : Option AxisRange
wide = some (record { minimum = pos 0; maximum = pos 65535 })

abbrev narrow : Option AxisRange
narrow = some (record { minimum = pos 0; maximum = pos 255 })

abbrev active_mapper : Mapper
active_mapper = record default { active = true }

lowest_centered : normalize_centered (pos 0) wide ≡ negsuc 999
unfolding normalize_centered ◌+ℤ◌ ◌-ℤ◌ ◌*ℤ◌ div_ℤ clamp_ℤ
lowest_centered = refl

middle_centered : normalize_centered (pos 32767) wide ≡ pos 0
unfolding normalize_centered ◌+ℤ◌ ◌-ℤ◌ ◌*ℤ◌ div_ℤ clamp_ℤ
middle_centered = refl

pulled_trigger : normalize_trigger (pos 128) narrow ≡ pos 501
unfolding normalize_trigger ◌+ℤ◌ ◌-ℤ◌ ◌*ℤ◌ div_ℤ clamp_ℤ
pulled_trigger = refl

map_key-key_control_example :
    map_key active_mapper 1 btn_south (pos 1)
    ≡ button active_mapper 1 (key_control btn_south) (nonzero (pos 1))
map_key-key_control_example = map_key-key_control active_mapper 1 btn_south (pos 1)
