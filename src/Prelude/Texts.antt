-- ===== src/Prelude/Texts.antt =====
-- Texts joined by a colon, as `fmt.Sprintf("%s:%s", a, b)` builds them, and `strings.Split`.
use Prim.Native.Char.{Char, code}
use Prim.Native.String.{String, ◌++◌}
use mathlib.Core.Path.{◌≡◌, refl, sym, ap, ◌∙◌}
use mathlib.Core.Logic.{◌≢◌}
use mathlib.Core.Bool.{◌&&◌}
use mathlib.Core.List.{List, [], ◌∷◌}
use native.Mathlib.Omega.{arith}
use text.Mathlib.Text.{◌==◌}
use text.Mathlib.TextEquality.{eq_iff}
use text.Mathlib.TextLemmas.{nil-append, cons-append, cons-eq-cons}
use controller_mesh.Prelude.Tests.{if◌then◌else◌, eqb}

unfoldable pub colon_join : String → String → String
colon_join a b = a ++ (":" ++ b)

abbrev pub NoColon : String → Type 0
NoColon String.[] = Unit
NoColon (String.◌∷◌ c s) = (code c ≢ b':') × NoColon s

-- A character put before the first of the pieces.
abbrev prepend : Char → List String → List String
prepend c [] = []
prepend c (w ∷ ws) = String.◌∷◌ c w ∷ ws

-- `strings.Split(s, ":")`.
unfoldable pub split_colon : String → List String
split_colon String.[] = "" ∷ []
split_colon (String.◌∷◌ c s) =
    let rest = split_colon s in if eqb (code c) b':' then "" ∷ rest else prepend c rest

-- `strings.Split`, at any character.
unfoldable pub split : Char → String → List String
split at String.[] = "" ∷ []
split at (String.◌∷◌ c s) =
    let rest = split at s in if eqb (code c) (code at) then "" ∷ rest else prepend c rest

abbrev colon : Char
colon = ":"

colon_join-cons :
    (c : Char) (a b : String) → colon_join (String.◌∷◌ c a) b ≡ String.◌∷◌ c (colon_join a b)
unfolding colon_join
colon_join-cons c a b = cons-append c a (":" ++ b)

colon_join-nil : (b : String) → colon_join "" b ≡ String.◌∷◌ colon b
unfolding colon_join
colon_join-nil b =
    nil-append (":" ++ b) ∙ cons-append colon "" b ∙ ap (String.◌∷◌ colon) (nil-append b)

-- The two parts of a joined text, where neither first part has a colon.
pub colon_join_inj :
    (a a' b b' : String)
    → NoColon a
    → NoColon a'
    → colon_join a b ≡ colon_join a' b'
    → (a ≡ a') × (b ≡ b')
colon_join_inj String.[] String.[] b b' h h' e =
    (refl, (cons-eq-cons.0 (sym (colon_join-nil b) ∙ e ∙ colon_join-nil b')).1)
colon_join_inj String.[] (String.◌∷◌ c' a') b b' h h' e =
    let heads = (cons-eq-cons.0 (sym (colon_join-nil b) ∙ e ∙ colon_join-cons c' a' b')).0 in
    absurd (h'.0 (ap code (sym heads)))
colon_join_inj (String.◌∷◌ c a) String.[] b b' h h' e =
    let heads = (cons-eq-cons.0 (sym (colon_join-cons c a b) ∙ e ∙ colon_join-nil b')).0 in
    absurd (h.0 (ap code heads))
colon_join_inj (String.◌∷◌ c a) (String.◌∷◌ c' a') b b' h h' e =
    let (heads, tails) =
      cons-eq-cons.0 (sym (colon_join-cons c a b) ∙ e ∙ colon_join-cons c' a' b') in
    let (same, rests) = colon_join_inj a a' b b' h.1 h'.1 tails in (cc, rests)

-- The test of two joined texts is the test of their parts.
pub ==-colon_join :
    (a a' b b' : String)
    → NoColon a
    → NoColon a'
    → (colon_join a b == colon_join a' b') ≡ (a == a' && b == b')
==-colon_join a a' b b' h h' = ground (
  arith,
  eq_iff (colon_join a b) (colon_join a' b'),
  eq_iff a a',
  eq_iff b b',
  colon_join_inj a a' b b' h h',
)

-- Splitting a joined text gives back the part before the first colon.
pub split_colon-join : (a b : String) → NoColon a → split_colon (colon_join a b) ≡ a ∷ split_colon b
unfolding split_colon
split_colon-join String.[] b h = rw colon_join-nil refl
split_colon-join (String.◌∷◌ c a) b (n, h) =
    rw (colon_join-cons c a b) (ground (arith, split_colon-join a b h))
