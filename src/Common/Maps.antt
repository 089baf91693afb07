-- ===== src/Common/Maps.antt =====
-- `HashMap<String, V>` as a list of its entries.
use Prim.Native.String.{String}
use mathlib.Core.Path.{◌≡◌, refl}
use mathlib.Core.Bool.{Bool}
use mathlib.Core.Option.{Option, none, some}
use mathlib.Core.List.{List, [], ◌∷◌}
use native.Mathlib.Omega.{arith}
use text.Mathlib.Text
use text.Mathlib.TextEquality.{eq_iff}
use mathlib.Core.Option
use ntp_time_json_api.Common.Tests.{if◌then◌else◌}

abbrev pub same_text : String → String → Bool
same_text a b = text.Mathlib.Text.◌==◌ a b

abbrev pub Entries {ℓ} : Type ℓ → Type ℓ
Entries V = List (String × V)

module _ {ℓ} {V : Type ℓ} where
  unfoldable pub lookup : String → Entries V → Option V
  lookup k [] = none
  lookup k ((j, v) ∷ m) = if same_text j k then some v else lookup k m

  unfoldable pub insert : String → V → Entries V → Entries V
  insert k v [] = (k, v) ∷ []
  insert k v ((j, w) ∷ m) = if same_text j k then (j, v) ∷ m else (j, w) ∷ insert k v m

  -- `if let Some(v) = m.get_mut(k) { *v = f(v) }`
  unfoldable pub adjust : String → (V → V) → Entries V → Entries V
  adjust k f [] = []
  adjust k f ((j, w) ∷ m) = if same_text j k then (j, f w) ∷ m else (j, w) ∷ adjust k f m

  -- A change at `key` shows at `key` only.
  pub lookup-insert :
      (key x : String) (value : V) (entries : Entries V)
      → lookup x (insert key value entries)
        ≡ (if same_text key x then some value else lookup x entries)
  unfolding lookup insert
  lookup-insert key x value [] = refl
  lookup-insert key x value ((head, old) ∷ entries) =
      let inner = lookup-insert key x value entries in
      ground (arith, eq_iff head x, eq_iff head key, eq_iff key x, inner)

  pub lookup-adjust :
      (key x : String) (f : V → V) (entries : Entries V)
      → lookup x (adjust key f entries)
        ≡ (if same_text key x then Option.map f (lookup x entries) else lookup x entries)
  unfolding lookup adjust
  lookup-adjust key x f [] = ground (arith, eq_iff key x)
  lookup-adjust key x f ((head, old) ∷ entries) =
      let inner = lookup-adjust key x f entries in
      ground (arith, eq_iff head x, eq_iff head key, eq_iff key x, inner)
