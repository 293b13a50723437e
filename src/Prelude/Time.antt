-- ===== src/Prelude/Time.antt =====
-- Instants and half-open windows. An instant is `Date.getTime()`, in milliseconds since 1970; a
-- window's end is `none` where the source has `null`, an open end.
use Prim.Native.Nat.{ℕ, ◌≤◌, ◌<◌}
use mathlib.Core.Path.{◌≡◌}
use mathlib.Core.Logic.{◌↔◌}
use mathlib.Core.Bool.{Bool, true, ◌&&◌}
use mathlib.Core.Option.{Option, none, some}
use native.Mathlib.Omega.{arith}
use karar_flutter_version.Prelude.Tests.{leb, ltb}

-- `effectiveTo === null || effectiveTo.getTime() > at.getTime()`
abbrev pub ends_after : Option ℕ → ℕ → Bool
ends_after none at = true
ends_after (some end) at = ltb at end

-- `effectiveFrom.getTime() <= at.getTime()` and the end lies after `at`.
abbrev pub window_covers : ℕ → Option ℕ → ℕ → Bool
window_covers start end at = leb start at && ends_after end at

abbrev pub EndsAfter : Option ℕ → ℕ → Type 0
EndsAfter none at = Unit
EndsAfter (some end) at = at < end

-- The instant lies in the half-open window from `start` to `end`.
abbrev pub Covers : ℕ → Option ℕ → ℕ → Type 0
Covers start end at = (start ≤ at) × EndsAfter end at

pub window_covers_iff :
    (start : ℕ) (end : Option ℕ) (at : ℕ)
    → (window_covers start end at ≡ true) ↔ Covers start end at
window_covers_iff start none at = ground arith
window_covers_iff start (some end) at = ground arith
