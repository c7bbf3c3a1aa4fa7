-- ===== src/Base/Samples.antt =====
-- A concrete instance of the text operations, for tests: digits are those of Latin-1, and the texts
-- of the tests have no outer blanks and no capitals but ASCII ones.
use Prim.Native.Nat.{◌-◌}
use Prim.Native.Char.{code}
use mathlib.Core.Bool.{◌&&◌, ◌||◌}
use mathlib.Core.Option.{none, some}
use fde_assessment.Base.Tests.{leb, ◌==◌, if◌then◌else◌}
use fde_assessment.Base.Unicode.{Unicode}

abbrev pub latin1 : Unicode
latin1 = record {
  strip = λ s. s;
  casefold = λ s. s;
  lower = λ s. s;
  is_printable = λ c. leb 32 (code c) && leb (code c) 126;
  is_digit = λ c.
      (leb 48 (code c) && leb (code c) 57) || (code c == 178 || (code c == 179 || code c == 185));
  decimal = λ c. if leb 48 (code c) && leb (code c) 57 then some (code c - 48) else none;
}
