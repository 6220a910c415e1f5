-- ===== src/Registry/Listing.antt =====
-- List of internal/registry/registry.go: what holds of the list and of the registered tools.
use agent_runtime_harness.Prelude.{
  ◌≡◌, Text, eq_text, eq_text_iff, eq_text_refl, some, Bool, true, List, [], ◌∷◌, Map, lookup,
  Unique, keep, All, subst, arith, inl, inr, Bool-cases,
}
use agent_runtime_harness.Model.{Tool}
use agent_runtime_harness.Versions.{text_ltb}
use agent_runtime_harness.Registry.{sort_in, list_tools}

module _ {ℓ} (P : Tool → Type ℓ) where
  All-sort_in : (t : Tool) (us : List Tool) → P t → All P us → All P (sort_in t us)
  unfolding sort_in
  All-sort_in t [] p a = (p, tt)
  All-sort_in t (u ∷ us) p a = ground (arith, All-sort_in t us p a.1)

  All-sort_in_elim : (t : Tool) (us : List Tool) → All P (sort_in t us) → P t × All P us
  unfolding sort_in
  All-sort_in_elim t [] = λ a. a
  All-sort_in_elim t (u ∷ us) = elim (Bool-cases (text_ltb u.id t.id)) [
    | inl before ↦
        rw (before, sort_in) (λ a. let r = All-sort_in_elim t us a.1 in (r.0, (a.0, r.1)))
    | inr after ↦ rw (after, sort_in) (λ a. a)
  ]

  -- What holds of each tool of the list holds of each registered tool.
  pub All-list_tools_elim :
      (m : Map Tool) (id : Text) (t : Tool) → All P (list_tools m) → lookup id m ≡ some t → P t
  unfolding list_tools lookup
  All-list_tools_elim [] id t a = λ e. absurd (ground arith)
  All-list_tools_elim ((j, u) ∷ m) id t a =
      let r = All-sort_in_elim u (list_tools m) a in
      elim (Bool-cases (eq_text j id)) [
        | inl same ↦ rw (same, lookup) (λ e. subst P (ground arith) r.0)
        | inr other ↦ rw (other, lookup) (All-list_tools_elim m id t r.1)
      ]

  pub All-list_tools :
      (m : Map Tool)
      → ((id : Text) (t : Tool) → lookup id m ≡ some t → P t)
      → Unique m
      → All P (list_tools m)
  unfolding list_tools lookup
  All-list_tools [] h u = tt
  All-list_tools ((j, t) ∷ m) h u =
      All-sort_in t (list_tools m) (h j t (ground (arith, eq_text_refl j)))
        (All-list_tools m (λ id s e. h id s (ground (arith, eq_text_iff j id, u.0))) u.1)

  pub All-keep :
      (p : Tool → Bool) (ts : List Tool) → All P ts → All (λ t. P t × (p t ≡ true)) (keep p ts)
  All-keep p [] a = tt
  All-keep p (t ∷ ts) a = elim (Bool-cases (p t)) [
    | inl yes' ↦ rw yes' ((a.0, yes'), All-keep p ts a.1)
    | inr no' ↦ rw no' (All-keep p ts a.1)
  ]

  pub All-keep_elim :
      (p : Tool → Bool) (ts : List Tool) → All P (keep p ts) → All (λ t. p t ≡ true → P t) ts
  All-keep_elim p [] = λ a. tt
  All-keep_elim p (t ∷ ts) = elim (Bool-cases (p t)) [
    | inl yes' ↦ rw yes' (λ a. (λ e. a.0, All-keep_elim p ts a.1))
    | inr no' ↦ rw no' (λ a. (λ e. absurd (ground arith), All-keep_elim p ts a))
  ]
