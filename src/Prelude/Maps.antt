-- ===== src/Prelude/Maps.antt =====
-- Go maps with string keys, as association lists: a key that is overwritten keeps its place, a new
-- key goes to the end. A range over a map that depends on the order takes the order as an argument.
use mathlib.Core.Path.{◌≡◌, refl, sym}
use mathlib.Core.Option.{Option, none, some}
use mathlib.Core.List.{List, [], ◌∷◌, ◌++◌, map, append-nil, append_assoc}
use native.Mathlib.Omega.{arith}
use agent_runtime_harness.Prelude.Tests.{if◌then◌else◌}
use agent_runtime_harness.Prelude.Strings.{Text, eq_text, eq_text_iff, eq_text_refl}

abbrev pub Map {ℓ} : Type ℓ → Type ℓ
Map V = List (Text × V)

module _ {ℓ} {V : Type ℓ} where
  -- v, ok := m[k]
  unfoldable pub lookup : Text → Map V → Option V
  lookup k [] = none
  lookup k ((j, v) ∷ m) = if eq_text j k then some v else lookup k m

  -- m[k] = v
  unfoldable pub insert : Text → V → Map V → Map V
  insert k v [] = (k, v) ∷ []
  insert k v ((j, w) ∷ m) = if eq_text j k then (j, v) ∷ m else (j, w) ∷ insert k v m

  -- delete(m, k)
  unfoldable pub delete : Text → Map V → Map V
  delete k [] = []
  delete k ((j, w) ∷ m) = let rest = delete k m in if eq_text j k then rest else (j, w) ∷ rest

  pub lookup-insert :
      (k j : Text) (v : V) (m : Map V)
      → lookup j (insert k v m) ≡ (if eq_text k j then some v else lookup j m)
  unfolding lookup insert
  lookup-insert k j v [] = refl
  lookup-insert k j v ((i, w) ∷ m) =
      ground (arith, eq_text_iff k j, eq_text_iff i k, eq_text_iff i j, lookup-insert k j v m)

  pub lookup-delete :
      (k j : Text) (m : Map V) → lookup j (delete k m) ≡ (if eq_text k j then none else lookup j m)
  unfolding lookup delete
  lookup-delete k j [] = ground arith
  lookup-delete k j ((i, w) ∷ m) =
      ground (arith, eq_text_iff k j, eq_text_iff i k, eq_text_iff i j, lookup-delete k j m)

  -- A new key goes to the end.
  pub insert_new :
      (k : Text) (v : V) (m : Map V) → lookup k m ≡ none → insert k v m ≡ m ++ (k, v) ∷ []
  unfolding lookup insert
  insert_new k v [] h = refl
  insert_new k v ((i, w) ∷ m) h = ground (arith, insert_new k v m)

-- No key stands twice.
abbrev pub Unique {ℓ} : {V : Type ℓ} → Map V → Type ℓ
Unique [] = Unit
Unique ((k, v) ∷ m) = (lookup k m ≡ none) × Unique m

module _ {ℓ} {V : Type ℓ} where
  pub insert-Unique : (k : Text) (v : V) (m : Map V) → Unique m → Unique (insert k v m)
  unfolding insert lookup
  insert-Unique k v [] u = (refl, tt)
  insert-Unique k v ((i, w) ∷ m) u =
      ground
        (arith, eq_text_iff i k, eq_text_iff k i, lookup-insert k i v m, insert-Unique k v m u.1)

-- m[f(v)] = v for each v of a list, in order.
module _ {ℓ} {V : Type ℓ} (f : V → Text) where
  unfoldable pub insert_all : List V → Map V → Map V
  insert_all [] m = m
  insert_all (v ∷ vs) m = insert_all vs (insert (f v) v m)

  abbrev pub IsKeyed : Map V → Type ℓ
  IsKeyed m = (k : Text) (v : V) → lookup k m ≡ some v → f v ≡ k

  abbrev pub IsApart : Map V → Map V → Type ℓ
  IsApart m n = (k : Text) (v : V) → lookup k n ≡ some v → lookup k m ≡ none

  pub IsKeyed-tail :
      (k : Text) (v : V) (m : Map V) → Unique ((k, v) ∷ m) → IsKeyed ((k, v) ∷ m) → IsKeyed m
  unfolding lookup
  IsKeyed-tail k v m u keyed j w e = ground (arith, eq_text_iff k j, keyed j w, u.0)

  pub IsKeyed-head : (k : Text) (v : V) (m : Map V) → IsKeyed ((k, v) ∷ m) → f v ≡ k
  unfolding lookup
  IsKeyed-head k v m keyed = keyed k v (ground (arith, eq_text_refl k))

  pub IsApart-head : (k : Text) (v : V) (m n : Map V) → IsApart m ((k, v) ∷ n) → lookup k m ≡ none
  unfolding lookup
  IsApart-head k v m n apart = apart k v (ground (arith, eq_text_refl k))

  pub IsApart-tail :
      (k : Text) (v : V) (m n : Map V)
      → Unique ((k, v) ∷ n)
      → IsApart m ((k, v) ∷ n)
      → IsApart (insert k v m) n
  unfolding lookup
  IsApart-tail k v m n u apart j w e =
      ground (arith, lookup-insert k j v m, eq_text_iff k j, apart j w, u.0)

  -- The values of a map, inserted under their keys, give the map again.
  insert_all-append :
      (n m : Map V) → Unique n → IsKeyed n → IsApart m n → insert_all (map (λ e. e.1) n) m ≡ m ++ n
  unfolding insert_all
  insert_all-append [] m u keyed apart = sym (append-nil m)
  insert_all-append ((k, v) ∷ n) m u keyed apart = ground (
    arith,
    IsKeyed-head k v n keyed,
    insert_new k v m (IsApart-head k v m n apart),
    insert_all-append n (insert k v m) u.1 (IsKeyed-tail k v n u keyed)
        (IsApart-tail k v m n u apart),
    append_assoc m ((k, v) ∷ []) n,
  )

  pub insert_all-values : (m : Map V) → Unique m → IsKeyed m → insert_all (map (λ e. e.1) m) [] ≡ m
  unfolding lookup
  insert_all-values m u keyed = insert_all-append m [] u keyed (λ k v e. refl)
