-- ===== src/Input/Mapper/Tests.antt =====
-- Runs of the mapper (services/hearthdeck-input/src/mapping.rs).
use hearthdeck.Prelude.{lookup, ◌==◌, if◌then◌else◌, none, ◌≡◌, true, false, List, [], ◌∷◌, ◌++◌}
use hearthdeck.Input.{OutputKey, dpad_up, stick_up, source_eq}
use hearthdeck.Input.Mapper.{default, set_active, remove_device}
use hearthdeck.Input.Mapper.Keys.{keys_after, held, IsBalanced}
use hearthdeck.Input.Mapper.Removal.{remove_device-lookup}
use hearthdeck.Input.Mapper.Mirror.{
  Operation, activates, presses, leaves, run, run-keys, run-set_active,
}

-- Two devices hold the up key, and one leaves.
abbrev history : List Operation
history = activates true ∷ presses 1 dpad_up true ∷ presses 2 stick_up true ∷ leaves 1 ∷ []

run-keys_example :
    let r = run default history in
    IsBalanced r.0 × ((k : OutputKey) → keys_after r.1 k false ≡ held r.0 k)
run-keys_example = run-keys history

run-set_active_example :
    let r = run default history in
    keys_after (r.1 ++ (set_active r.0 false).1) OutputKey.up false ≡ false
run-set_active_example = run-set_active history OutputKey.up

remove_device-lookup_example :
    let m = (run default history).0 in
    lookup (2, stick_up) (remove_device m 2).0.sources
    ≡ (if 2 == 2 then none else lookup (2, stick_up) m.sources)
remove_device-lookup_example = remove_device-lookup (run default history).0 2 (2, stick_up)
