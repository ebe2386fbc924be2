-- ===== src/Server/Table.antt =====
-- `KVStore` of ddbb_server/src/ddbb_server.rs and `HashMap<String, _>`: `put` and `get`.
use Prim.Native.String.{String}
use text.Mathlib.Text.{◌==◌}
use text.Mathlib.TextEquality.{eq_iff}
use ik2203_distributed_coord.Prelude.{
  ◌≡◌, refl, Option, none, some, List, [], ◌∷◌, arith, control, if◌then◌else◌,
}

module _ {V : Type 0} where
  -- `HashMap::get`
  unfoldable pub get : List (String × V) → String → Option V
  get [] k = none
  get ((j, v) ∷ m) k = if j == k then some v else get m k

  -- `HashMap::insert`
  unfoldable pub put : List (String × V) → String → V → List (String × V)
  put [] k v = (k, v) ∷ []
  put ((j, w) ∷ m) k v = if j == k then (k, v) ∷ m else (j, w) ∷ put m k v

  pub get-put :
      (m : List (String × V)) (k j : String) (v : V)
      → get (put m k v) j ≡ (if k == j then some v else get m j)
  unfolding get put control
  get-put [] k j v = refl
  get-put ((i, w) ∷ m) k j v = ground (arith, eq_iff k j, eq_iff i k, eq_iff i j, get-put m k j v)
