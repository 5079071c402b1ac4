-- ===== src/Service/Blank.antt =====
-- Blank paths.
use Prim.Native.Char.{Char}
use Prim.Native.String.{String, ◌∷◌, ◌++◌}
use kong_portal_controller.Base.{◌≡◌, false, some, arith, string_eq}
use kong_portal_controller.Base.Text.{is_space, trim_space-cons}
use kong_portal_controller.Service.{is_empty_string}

-- A path whose first character is no space passes the check.
pub is_empty_string-cons :
    (c : Char) (s t : String) → is_space c ≡ false → is_empty_string (some ((c ∷ s) ++ t)) ≡ false
unfolding is_empty_string
is_empty_string-cons c s t h = ground (arith, trim_space-cons c s t h)
