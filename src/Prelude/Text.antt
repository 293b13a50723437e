-- ===== src/Prelude/Text.antt =====
-- Strings: equality, and the test `text.trim() === ''`.
use Prim.Native.Nat.{ℕ}
use Prim.Native.Char.{code}
use Prim.Native.String.{String}
use mathlib.Core.Bool.{Bool, true, ◌&&◌, ◌||◌}
pub use text.Mathlib.TextEquality.{eq_iff}
use karar_flutter_version.Prelude.Tests.{leb, ◌==◌}
unfoldable pub use text.Mathlib.Text.{◌==◌ as same_text}

-- The white space that `String.prototype.trim` removes (WhiteSpace and LineTerminator of ECMA-262).
pub is_space : ℕ → Bool
is_space c =
    (leb 9 c && leb c 13)
    || c == 32
    || c == 160
    || c == 5760
    || (leb 8192 c && leb c 8202)
    || c == 8232
    || c == 8233
    || c == 8239
    || c == 8287
    || c == 12288
    || c == 65279

-- `text.trim() === ''`: nothing is left when every character is white space.
unfoldable pub is_blank : String → Bool
unfolding is_space
is_blank String.[] = true
is_blank (String.◌∷◌ c s) = is_space (code c) && is_blank s

-- `a + b` of two strings.
unfoldable pub join_text : String → String → String
join_text String.[] b = b
join_text (String.◌∷◌ c a) b = String.◌∷◌ c (join_text a b)
