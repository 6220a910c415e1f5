-- ===== src/Service/Ownership.antt =====
-- internal/daemon/service.go: what a call can reach of other sessions, and what escapes the end of a session.
use agent_runtime_harness.Prelude.{
  ℕ, ◌≡◌, ◌≢◌, refl, Text, text, eq_text, eq_text_iff, some, Bool, false, not, ◌&&◌, [], ◌∷◌, Map,
  lookup, arith, inl, inr, Option-cases, Bool-cases,
}
use agent_runtime_harness.Model.{Session, is_terminal, Lease, released, is_active, Workspace}
use agent_runtime_harness.Policy.{evaluate}
use agent_runtime_harness.Leases
use agent_runtime_harness.Leases.{end_lease, save}
use agent_runtime_harness.Leases.Endings.{release}
use agent_runtime_harness.Leases.Effects.{lookup-end_lease}
use agent_runtime_harness.Leases.Handover.{leases-save}
use agent_runtime_harness.Workspaces
use agent_runtime_harness.Service.{Service}
use agent_runtime_harness.Service.Work.{release_lease, user_of, remove_workspace}
use agent_runtime_harness.Service.Composition.{IsValid}

-- Release touches one lease.
lookup-release :
    (m : Leases.Manager) (id j : Text) (l : Lease) (now : ℕ) (ok : Bool)
    → Leases.Invariant.IsValid m
    → lookup j m.leases ≡ some l
    → eq_text id j ≡ false
    → lookup j (release m id now ok).0.leases ≡ some l
unfolding release
lookup-release m id j l now ok v found other = elim (Option-cases (lookup id m.leases)) [
  | inl missing ↦ rw (missing, release) found
  | inr (k, here) ↦ elim (Bool-cases (is_active k.state)) [
    | inr over ↦ rw (here, release, over) found
    | inl active ↦
        rw (here, release, active)
          (ground (
            arith,
            leases-save ok (end_lease m k released now),
            lookup-end_lease m id k released now j l v here active refl found,
          ))
  ]
]

-- ReleaseLease by a session leaves every lease of another session as it was, if every manager is valid.
pub release_lease_own :
    (s : Service) (owner sid id : Text) (now : ℕ) (ok : Bool) (j : Text) (l : Lease)
    → IsValid s
    → lookup j s.leases.leases ≡ some l
    → l.session_id ≢ sid
    → lookup j (release_lease s owner sid id now ok).0.leases.leases ≡ some l
unfolding release_lease
release_lease_own s owner sid id now ok j l v found other =
    elim (Option-cases (evaluate s.rules owner (text "lease.release"))) [
      | inr (d, no') ↦ rw (no', release_lease) found
      | inl yes' ↦ elim (Option-cases (lookup id s.leases.leases)) [
        | inl unknown ↦ rw (yes', release_lease, unknown) found
        | inr (k, here) ↦ elim (Bool-cases (eq_text k.session_id sid)) [
          | inr foreign ↦ rw (yes', release_lease, here, foreign) found
          | inl own ↦
              rw (yes', release_lease, here, own)
                (lookup-release s.leases id j l now ok v.leases found
                  (ground (arith, eq_text_iff id j, eq_text_iff k.session_id sid)))
        ]
      ]
    ]

-- A live session of the workspace is in the map.
user_of_live :
    (name : Text) (m : Map Session) (id : Text) (u : Session)
    → lookup id m ≡ some u
    → u.workspace_id ≡ name
    → is_terminal u.state ≡ false
    → (x : Session) × (user_of name m ≡ some x)
unfolding user_of lookup
user_of_live name [] id u e same live = absurd (ground arith)
user_of_live name ((j, y) ∷ m) id u e same live =
    elim (Bool-cases (eq_text y.workspace_id name && not (is_terminal y.state))) [
      | inl uses ↦ rw (uses, user_of) (y, refl)
      | inr free ↦
          rw (free, user_of)
            (user_of_live name m id u (ground (arith, eq_text_iff y.workspace_id name)) same live)
    ]

-- RemoveWorkspace leaves the registration of a workspace that a live session names, whoever asks.
pub remove_workspace_in_use :
    (s : Service) (owner name : Text) (ok : Bool) (w : Workspace) (id : Text) (u : Session)
    → lookup name s.workspaces.ws ≡ some w
    → lookup id s.sessions.sessions ≡ some u
    → u.workspace_id ≡ w.name
    → is_terminal u.state ≡ false
    → (remove_workspace s owner name ok).0 ≡ s
unfolding remove_workspace Workspaces.get_by_name
remove_workspace_in_use s owner name ok w id u found user same live =
    elim (Option-cases (evaluate s.rules owner (text "workspace.remove"))) [
      | inr (d, no') ↦ rw (no', remove_workspace) refl
      | inl yes' ↦
          let (x, used) = user_of_live w.name s.sessions.sessions id u user same live in
          rw (yes', remove_workspace, found, used) refl
    ]
