-- ===== src/Proxy/Election/Paths.antt =====
-- Where the last occurrence of a text is its end (pkg/utils/string.go).
use Prim.Native.Char.{Char, code}
use Prim.Native.String.{String, ◌++◌}
use text.Mathlib.TextLemmas.{nil-append, cons-append, append-nil}
use controller_mesh.Prelude.{ℕ, suc, ◌<◌, ◌≡◌, refl, sym, ap, ◌∙◌, none, some, eqb_refl, arith}
use controller_mesh.Proxy.Election.{strip, replaced, last_replace}

abbrev size : String → ℕ
size String.[] = 0
size (String.◌∷◌ c s) = suc (size s)

strip_self : (s : String) → strip s s ≡ some ""
unfolding strip
strip_self String.[] = refl
strip_self (String.◌∷◌ c s) = rw (eqb_refl (code c)) (strip_self s)

strip-shorter : (old s : String) → size s < size old → strip old s ≡ none
unfolding strip
strip-shorter String.[] s lt = ground (arith, lt)
strip-shorter (String.◌∷◌ c old) String.[] lt = refl
strip-shorter (String.◌∷◌ c old) (String.◌∷◌ d s) lt =
    ground (arith, strip-shorter old s (omega (arith, lt)))

replaced-shorter : (s old new : String) → size s < size old → replaced s old new ≡ none
unfolding replaced
replaced-shorter String.[] old new lt = rw (strip-shorter old "" lt) refl
replaced-shorter (String.◌∷◌ c s) old new lt =
    rw (replaced-shorter s old new (omega (arith, lt)), strip-shorter old (String.◌∷◌ c s) lt) refl

replaced_self : (old new : String) → replaced old old new ≡ some new
unfolding replaced strip
replaced_self String.[] new = ap some (append-nil new)
replaced_self (String.◌∷◌ c s) new =
    rw (replaced-shorter s (String.◌∷◌ c s) new (omega arith), strip_self (String.◌∷◌ c s))
      (ap some (append-nil new))

replaced-cons :
    (c : Char) (s old new r : String)
    → replaced s old new ≡ some r
    → replaced (String.◌∷◌ c s) old new ≡ some (String.◌∷◌ c r)
unfolding replaced
replaced-cons c s old new r h = rw h refl

replaced-end : (a old new : String) → replaced (a ++ old) old new ≡ some (a ++ new)
replaced-end String.[] old new =
    ap (λ s. replaced s old new) (nil-append old)
    ∙ (replaced_self old new ∙ ap some (sym (nil-append new)))
replaced-end (String.◌∷◌ c a) old new =
    ap (λ s. replaced s old new) (cons-append c a old)
    ∙ (replaced-cons c (a ++ old) old new (a ++ new) (replaced-end a old new)
        ∙ ap some (sym (cons-append c a new)))

-- At the end of a text the old one is replaced, whatever stands before it.
pub last_replace-end : (a old new : String) → last_replace (a ++ old) old new ≡ a ++ new
unfolding last_replace
last_replace-end a old new = rw (replaced-end a old new, last_replace) refl
