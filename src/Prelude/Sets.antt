-- ===== src/Prelude/Sets.antt =====
-- `sets.Set[string]` as a list of texts; the order is the order that `range` takes.
use Prim.Native.String.{String}
use mathlib.Core.Path.{◌≡◌}
use mathlib.Core.Bool.{not, ◌||◌, ◌&&◌}
use mathlib.Core.List.{List, [], ◌∷◌, ◌++◌}
use native.Mathlib.Omega.{arith}
use text.Mathlib.Text.{◌==◌}
use text.Mathlib.TextEquality.{eq_iff}
use controller_mesh.Prelude.Tests.{if◌then◌else◌}
use controller_mesh.Prelude.Lists.{contains, contains-append}

unfoldable pub insert : String → List String → List String
insert k s = if contains k s then s else s ++ k ∷ []

unfoldable pub delete : String → List String → List String
delete k [] = []
delete k (x ∷ s) = if x == k then delete k s else x ∷ delete k s

pub contains-insert :
    (k j : String) (s : List String) → contains j (insert k s) ≡ (k == j || contains j s)
unfolding insert
contains-insert k j s = ground (arith, eq_iff k j, contains-append j s (k ∷ []))

pub contains-delete :
    (k j : String) (s : List String) → contains j (delete k s) ≡ (not (k == j) && contains j s)
unfolding delete
contains-delete k j [] = ground arith
contains-delete k j (x ∷ s) =
    ground (arith, eq_iff k j, eq_iff x k, eq_iff x j, contains-delete k j s)
