-- ===== src/Tools.antt =====
-- tools/tools.go.
pub mod Laws
use iapetos.Prelude.{ℕ, String, Bool, true, false, List, [], ◌∷◌, ◌==◌, if◌then◌else◌}
use iapetos.Prelude.Int.{ℤ, int32}
use iapetos.Text.{atoi}

-- `StringToInt`.
unfoldable pub string_to_int : String → ℤ
unfolding atoi
string_to_int str = atoi str

-- `MatchStringFromArray`.
unfoldable pub match_string_from_array : List String → String → Bool
match_string_from_array [] value = false
match_string_from_array (v ∷ vs) value =
    if v == value then true else match_string_from_array vs value

-- `RemoveString`: the first occurrence goes.
unfoldable pub remove_string : List String → String → List String
remove_string [] value = []
remove_string (v ∷ vs) value = if v == value then vs else v ∷ remove_string vs value

-- `IntToIntr32`.
abbrev pub int_to_intr32 : ℕ → ℤ
int_to_intr32 index = int32 index
