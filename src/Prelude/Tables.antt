-- ===== src/Prelude/Tables.antt =====
-- Go maps with int keys, as association lists; the sequel of the maps with string keys.
use Prim.Native.Nat.{ℕ, ◌+◌}
use mathlib.Core.Path.{◌≡◌, refl}
use mathlib.Core.Option.{Option, none, some}
use mathlib.Core.List.{List, [], ◌∷◌}
use native.Mathlib.Omega.{arith}
use agent_runtime_harness.Prelude.Tests.{◌==◌, if◌then◌else◌}

abbrev pub Table {ℓ} : Type ℓ → Type ℓ
Table V = List (ℕ × V)

module _ {ℓ} {V : Type ℓ} where
  -- v, ok := t[k]
  unfoldable pub find : ℕ → Table V → Option V
  find k [] = none
  find k ((j, v) ∷ t) = if j == k then some v else find k t

  -- t[k] = v
  unfoldable pub put : ℕ → V → Table V → Table V
  put k v [] = (k, v) ∷ []
  put k v ((j, w) ∷ t) = if j == k then (j, v) ∷ t else (j, w) ∷ put k v t

  -- delete(t, k)
  unfoldable pub drop_key : ℕ → Table V → Table V
  drop_key k [] = []
  drop_key k ((j, w) ∷ t) = let rest = drop_key k t in if j == k then rest else (j, w) ∷ rest

  pub find-put :
      (k j : ℕ) (v : V) (t : Table V) → find j (put k v t) ≡ (if k == j then some v else find j t)
  unfolding find put
  find-put k j v [] = refl
  find-put k j v ((i, w) ∷ t) = ground (arith, find-put k j v t)

  pub find-drop_key :
      (k j : ℕ) (t : Table V) → find j (drop_key k t) ≡ (if k == j then none else find j t)
  unfolding find drop_key
  find-drop_key k j [] = ground arith
  find-drop_key k j ((i, w) ∷ t) = ground (arith, find-drop_key k j t)

  -- An absent key is not there to delete.
  drop_key_absent : (k : ℕ) (t : Table V) → find k t ≡ none → drop_key k t ≡ t
  unfolding find drop_key
  drop_key_absent k [] h = refl
  drop_key_absent k ((i, w) ∷ t) h = ground (arith, drop_key_absent k t)

-- No key stands twice.
abbrev pub IsTable {ℓ} : {V : Type ℓ} → Table V → Type ℓ
IsTable [] = Unit
IsTable ((k, v) ∷ t) = (find k t ≡ none) × IsTable t

module _ {ℓ} {V : Type ℓ} where
  pub put-IsTable : (k : ℕ) (v : V) (t : Table V) → IsTable t → IsTable (put k v t)
  unfolding put find
  put-IsTable k v [] u = (refl, tt)
  put-IsTable k v ((i, w) ∷ t) u = ground (arith, find-put k i v t, put-IsTable k v t u.1)

  pub drop_key-IsTable : (k : ℕ) (t : Table V) → IsTable t → IsTable (drop_key k t)
  unfolding drop_key find
  drop_key-IsTable k [] u = tt
  drop_key-IsTable k ((i, w) ∷ t) u = ground (arith, find-drop_key k i t, drop_key-IsTable k t u.1)

-- How often a number stands among the values.
unfoldable pub count_value : ℕ → Table ℕ → ℕ
count_value n [] = 0
count_value n ((k, v) ∷ t) = (if v == n then 1 else 0) + count_value n t

pub count_value-put_new :
    (n k v : ℕ) (t : Table ℕ)
    → find k t ≡ none
    → count_value n (put k v t) ≡ (if v == n then 1 else 0) + count_value n t
unfolding count_value put find
count_value-put_new n k v [] h = refl
count_value-put_new n k v ((i, w) ∷ t) h = ground (arith, count_value-put_new n k v t)

pub count_value-drop_key :
    (n k v : ℕ) (t : Table ℕ)
    → IsTable t
    → find k t ≡ some v
    → count_value n t ≡ (if v == n then 1 else 0) + count_value n (drop_key k t)
unfolding count_value drop_key find
count_value-drop_key n k v [] u h = absurd (ground arith)
count_value-drop_key n k v ((i, w) ∷ t) u h =
    ground (arith, count_value-drop_key n k v t u.1, drop_key_absent k t)
