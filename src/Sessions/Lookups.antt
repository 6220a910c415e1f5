-- ===== src/Sessions/Lookups.antt =====
-- What a section of internal/session/manager.go leaves at each id, and where its searches find a session.
use agent_runtime_harness.Prelude.{
  ◌≡◌, Text, eq_text, eq_text_iff, eq_text_refl, Option, none, some, false, [], ◌∷◌, Map, lookup,
  lookup-insert, Unique, IsKeyed, IsKeyed-head, IsKeyed-tail, if◌then◌else◌, arith, inl, inr,
  Option-cases,
}
use agent_runtime_harness.Model.{Session}
use agent_runtime_harness.Sessions.{Manager, get_by_name, mutate}

-- The result of fn, or the session as it was where fn fails.
abbrev pub changed_by : (Session → Option Session) → Session → Session
changed_by fn u = elim (fn u) [ none ↦ u | some v ↦ v ]

pub lookup-mutate :
    (m : Manager) (id k : Text) (fn : Session → Option Session)
    → lookup k (mutate m id fn).sessions ≡ (
        if eq_text id k
        then elim (lookup k m.sessions) [ none ↦ none | some u ↦ some (changed_by fn u) ]
        else lookup k m.sessions)
unfolding mutate
lookup-mutate m id k fn = elim (Option-cases (lookup id m.sessions)) [
  | inl missing ↦ rw (missing, mutate) (ground (arith, eq_text_iff id k))
  | inr (u, found) ↦ elim (Option-cases (fn u)) [
    | inl failed ↦ rw (found, mutate, failed) (ground (arith, eq_text_iff id k))
    | inr (v, done) ↦
        rw (found, mutate, done) (ground (arith, eq_text_iff id k, lookup-insert id k v m.sessions))
  ]
]

-- A session that is found by its name stands under its own id.
pub get_by_name_found :
    (m : Map Session) (name : Text) (u : Session)
    → Unique m
    → IsKeyed (λ s. s.id) m
    → get_by_name m name ≡ some u
    → lookup u.id m ≡ some u
unfolding get_by_name lookup
get_by_name_found [] name u once keyed e = absurd (ground arith)
get_by_name_found ((id, v) ∷ m) name u once keyed e =
    let rest = get_by_name_found m name u once.1 (IsKeyed-tail (λ s. s.id) id v m once keyed) in
    ground (
      arith,
      IsKeyed-head (λ s. s.id) id v m keyed,
      eq_text_iff id u.id,
      eq_text_refl id,
      rest,
      once.0,
    )

-- A session that is found has the name that was asked for.
get_by_name_named :
    (m : Map Session) (name : Text) (u : Session)
    → get_by_name m name ≡ some u
    → (u.name ≡ name) × (eq_text name [] ≡ false)
unfolding get_by_name
get_by_name_named [] name u e = absurd (ground arith)
get_by_name_named ((id, v) ∷ m) name u e =
    ground (arith, get_by_name_named m name u, eq_text_iff v.name name, eq_text_iff v.name [])

-- The empty name finds nobody.
pub get_by_name_empty : (m : Map Session) → get_by_name m [] ≡ none
unfolding get_by_name
get_by_name_empty [] = ground arith
get_by_name_empty ((id, u) ∷ m) = ground (arith, get_by_name_empty m)
