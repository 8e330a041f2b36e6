-- ===== src/Prelude/Suffix.antt =====
-- `strip_prefix` and `strip_suffix` of `str`.
use mathlib.Core.Path.{◌≡◌, refl, ap, ◌∙◌}
use mathlib.Core.Option.{Option, none, some}
use mathlib.Core.List.{[], ◌∷◌, ◌++◌, reverse, reverse-append, reverse-reverse}
use native.Mathlib.Omega.{arith}
use near_kit_rs.Prelude.Tests.{◌==◌, if◌then◌else◌}
use near_kit_rs.Prelude.Lists.{Bytes}

unfoldable pub strip_prefix : Bytes → Bytes → Option Bytes
strip_prefix [] s = some s
strip_prefix (p ∷ front) [] = none
strip_prefix (p ∷ front) (c ∷ s) = if p == c then strip_prefix front s else none

pub strip_prefix-append : (p s : Bytes) → strip_prefix p (p ++ s) ≡ some s
unfolding strip_prefix
strip_prefix-append [] s = refl
strip_prefix-append (c ∷ p) s = ground (arith, strip_prefix-append p s)

abbrev pub reversed : Option Bytes → Option Bytes
reversed none = none
reversed (some s) = some (reverse s)

unfoldable pub strip_suffix : Bytes → Bytes → Option Bytes
unfolding strip_prefix
strip_suffix suffix s = reversed (strip_prefix (reverse suffix) (reverse s))

pub strip_suffix-append : (s suffix : Bytes) → strip_suffix suffix (s ++ suffix) ≡ some s
unfolding strip_suffix
strip_suffix-append s suffix =
    ap (λ t. reversed (strip_prefix (reverse suffix) t)) (reverse-append s suffix)
    ∙ ap reversed (strip_prefix-append (reverse suffix) (reverse s))
    ∙ ap some (reverse-reverse s)

-- Whether a suffix is that of a text is seen from the text's end.
pub strip_suffix_end :
    (suffix s end : Bytes)
    → strip_suffix suffix (s ++ end)
      ≡ reversed (strip_prefix (reverse suffix) (reverse end ++ reverse s))
unfolding strip_suffix
strip_suffix_end suffix s end =
    ap (λ t. reversed (strip_prefix (reverse suffix) t)) (reverse-append s end)
