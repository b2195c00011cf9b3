-- ===== src/Prelude/Strings.antt =====
-- Texts that are only compared, as keys.
use Prim.Native.String.{String}
use text.Mathlib.Text.{◌==◌ as str_eq}
use text.Mathlib.TextEquality.{eq_iff}
use hearthdeck.Prelude.Maps.{Eq}

instance abbrev pub string_eq : Eq String
string_eq = record { beq = str_eq; beq_iff = eq_iff }
