-- ===== src/Base/Text.antt =====
-- Texts: emptiness and equality.
use Prim.Native.String.{String}
use mathlib.Core.Bool.{Bool, true, false}
use text.Mathlib.Text

abbrev pub is_empty : String → Bool
is_empty String.[] = true
is_empty (String.◌∷◌ c s) = false

abbrev pub same_text : String → String → Bool
same_text = Text.◌==◌
