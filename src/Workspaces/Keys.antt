-- ===== src/Workspaces/Keys.antt =====
-- The keys of the table and the mutex of internal/workspace/manager.go.
use agent_runtime_harness.Prelude.{
  ◌≡◌, [], refl, ap, ◌∙◌, Text, eq_text, eq_text_iff, none, some, Bool, true, false, arith, lookup,
  lookup-insert, Option-cases, Bool-cases, inl, inr,
}
use agent_runtime_harness.Model.{Workspace}
use agent_runtime_harness.Workspaces.{
  Manager, CreateOptions, CreateResult, World, lock, unlock, name_of, new_workspace, add, create_at,
  create_locked, unlock_and_save, create, plain_name, create_plain_locked, create_plain,
}

-- CreatePlain of a directory that exists, under a name that is free, unlocks the mutex twice and so ends
-- the process, whether the state is saved or not.
pub create_plain_fatal :
    (m : Manager) (dir name abs : Text) (w : World)
    → eq_text dir [] ≡ false
    → w.abs_path ≡ some abs
    → w.is_repository ≡ true
    → lookup (plain_name name w) m.ws ≡ none
    → (create_plain m dir name w).0.fatal ≡ true
unfolding create_plain create_plain_locked lock unlock add unlock_and_save
create_plain_fatal m dir name abs w given here is_dir new =
    rw (given, here, is_dir, new)
      (elim (Bool-cases w.save_ok) [ inl saved ↦ rw saved refl | inr lost ↦ rw lost refl ])

-- A section that holds the mutex leaves it held, and leaves the workspaces that are there alone.
abbrev Keeps : Manager → Manager → Type 0
Keeps m n =
    (n.locked ≡ m.locked)
    × (n.fatal ≡ m.fatal)
    × ((name : Text) (old : Workspace) → lookup name m.ws ≡ some old → lookup name n.ws ≡ some old)

Keeps-refl : (m : Manager) → Keeps m m
Keeps-refl m = (refl, refl, λ name old e. e)

Keeps-add : (m : Manager) (w : Workspace) → lookup w.name m.ws ≡ none → Keeps m (add m w)
unfolding add
Keeps-add m w new = (
  refl,
  refl,
  λ name old e. ground (arith, lookup-insert w.name name w m.ws, eq_text_iff w.name name),
)

create_at-Keeps :
    (m : Manager) (o : CreateOptions) (w : World) (repo : Text) → Keeps m (create_at m o w repo).0
unfolding create_at new_workspace
create_at-Keeps m o w repo = elim (Bool-cases w.is_repository) [
  | inr no' ↦ rw (no', create_at) (Keeps-refl m)
  | inl yes' ↦ elim (Option-cases (lookup (name_of o w) m.ws)) [
    | inr (old, there) ↦ rw (yes', create_at, there) (Keeps-refl m)
    | inl new ↦ elim (Bool-cases w.parent_ok) [
      | inr no' ↦ rw (yes', create_at, new, no') (Keeps-refl m)
      | inl parent ↦ elim (Bool-cases w.worktree_ok) [
        | inr no' ↦ rw (yes', create_at, new, parent, no') (Keeps-refl m)
        | inl made ↦
            rw (yes', create_at, new, parent, made)
              (Keeps-add m (new_workspace o w repo (name_of o w)) new)
      ]
    ]
  ]
]

create_locked-Keeps :
    (m : Manager) (o : CreateOptions) (w : World) → Keeps m (create_locked m o w).0
unfolding create_locked
create_locked-Keeps m o w = elim (Bool-cases (eq_text o.repo [])) [
  | inl missing ↦ rw (missing, create_locked) (Keeps-refl m)
  | inr given ↦ elim (Option-cases w.abs_path) [
    | inl bad ↦ rw (given, create_locked, bad) (Keeps-refl m)
    | inr (repo, good) ↦ rw (given, create_locked, good) (create_at-Keeps m o w repo)
  ]
]

unlock_and_save-unlock :
    (save_ok : Bool) (r : Manager × CreateResult) → (unlock_and_save save_ok r).0 ≡ unlock r.0
unfolding unlock_and_save
unlock_and_save-unlock save_ok (m, CreateResult.created w) = refl
unlock_and_save-unlock save_ok (m, CreateResult.no_repo) = refl
unlock_and_save-unlock save_ok (m, CreateResult.no_dir) = refl
unlock_and_save-unlock save_ok (m, CreateResult.bad_path) = refl
unlock_and_save-unlock save_ok (m, CreateResult.not_a_repository) = refl
unlock_and_save-unlock save_ok (m, CreateResult.already_exists name) = refl
unlock_and_save-unlock save_ok (m, CreateResult.no_parent) = refl
unlock_and_save-unlock save_ok (m, CreateResult.git_failed) = refl
unlock_and_save-unlock save_ok (m, CreateResult.save_failed) = refl

unlock_held :
    (m : Manager)
    → m.locked ≡ true
    → ((unlock m).locked ≡ false) × ((unlock m).fatal ≡ m.fatal) × ((unlock m).ws ≡ m.ws)
unfolding unlock
unlock_held m held = rw (held, unlock) (refl, refl, refl)

-- Create, whatever the file system and git answer, gives the mutex back once, and replaces no workspace
-- that is registered.
create_keeps :
    (m : Manager) (o : CreateOptions) (w : World) (name : Text) (old : Workspace)
    → lookup name m.ws ≡ some old
    → let n = (create m o w).0 in
      (n.locked ≡ false) × (n.fatal ≡ m.fatal) × (lookup name n.ws ≡ some old)
unfolding create lock
create_keeps m o w name old there =
    let kept = create_locked-Keeps (lock m) o w in
    let r = create_locked (lock m) o w in
    let free' = unlock_held r.0 kept.0 in
    rw (unlock_and_save-unlock w.save_ok r)
      (free'.0, free'.1 ∙ kept.1, ap (lookup name) free'.2 ∙ kept.2 name old there)
