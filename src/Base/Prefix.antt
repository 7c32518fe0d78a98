-- ===== src/Base/Prefix.antt =====
-- text.startsWith(prefix), and what stands after a prefix.
use Prim.Native.Char.{code}
use Prim.Native.String.{String, ◌++◌}
use mathlib.Core.Path.{◌≡◌, refl}
use mathlib.Core.Bool.{Bool, true, false, ◌&&◌}
use native.Mathlib.Omega.{arith}
use text.Mathlib.TextLemmas.{nil-append, cons-append}
use mailmon.Base.Tests.{eqb}

unfoldable pub starts_with : String → String → Bool
starts_with String.[] s = true
starts_with (String.◌∷◌ c p) String.[] = false
starts_with (String.◌∷◌ c p) (String.◌∷◌ d s) = eqb (code c) (code d) && starts_with p s

-- text.slice(prefix.length)
unfoldable pub drop_prefix : String → String → String
drop_prefix String.[] s = s
drop_prefix (String.◌∷◌ c p) String.[] = String.[]
drop_prefix (String.◌∷◌ c p) (String.◌∷◌ d s) = drop_prefix p s

pub starts_with-append : (p s : String) → starts_with p (p ++ s) ≡ true
unfolding starts_with
starts_with-append String.[] s = refl
starts_with-append (String.◌∷◌ c p) s =
    rw (cons-append c p s) (ground (arith, starts_with-append p s))

pub drop_prefix-append : (p s : String) → drop_prefix p (p ++ s) ≡ s
unfolding drop_prefix
drop_prefix-append String.[] s = nil-append s
drop_prefix-append (String.◌∷◌ c p) s = rw (cons-append c p s) (drop_prefix-append p s)
