-- ===== src/Workspaces.antt =====
-- internal/workspace/manager.go: the table of workspaces. filepath, os.Stat and git are arguments, and so
-- are the ids that the daemon's counter gives. The mutex is part of the state, since CreatePlain unlocks it twice.
pub mod Keys
mod Examples
use agent_runtime_harness.Prelude.{
  ℕ, Text, text, eq_text, Option, none, some, Bool, true, false, not, ◌&&◌, ◌||◌, List, [], ◌∷◌,
  ◌++◌, map, leb, ◌==◌, Map, lookup, insert, delete, insert_all, if◌then◌else◌,
}
use agent_runtime_harness.Model.{Workspace}

-- ws, with the mutex held or free; fatal after an Unlock of a mutex that is free, which ends the process.
pub record Manager : Type 0 where
  pub ws : Map Workspace
  pub locked : Bool
  pub fatal : Bool

-- New
unfoldable pub new : Manager
new = record { ws = []; locked = false; fatal = false }

-- m.mu.Lock, where nobody else holds it
unfoldable pub lock : Manager → Manager
lock m = record m { locked = true }

-- m.mu.Unlock
unfoldable pub unlock : Manager → Manager
unlock m = if m.locked then record m { locked = false } else record m { fatal = true }

pub record CreateOptions : Type 0 where
  pub repo : Text
  pub branch : Text
  pub name : Text
  pub detach : Bool
  pub path : Text

pub data CreateResult : Type 0 where
  created : Workspace → CreateResult
  no_repo : CreateResult
  no_dir : CreateResult
  bad_path : CreateResult
  not_a_repository : CreateResult
  already_exists : Text → CreateResult
  no_parent : CreateResult
  git_failed : CreateResult
  save_failed : CreateResult

-- What a Create asks of the world: the absolute repository path, the last elements of the branch and of the
-- repository path, the outcomes of git and os.MkdirAll, the target directory, the next id, and the clock.
pub record World : Type 0 where
  pub abs_path : Option Text
  pub branch_base : Text
  pub repo_base : Text
  pub is_repository : Bool
  pub target : Text
  pub parent_ok : Bool
  pub worktree_ok : Bool
  pub next_id : Text
  pub now : ℕ
  pub save_ok : Bool

-- The name of the workspace.
unfoldable pub name_of : CreateOptions → World → Text
unfolding eq_text
name_of o w =
    let named =
      (if eq_text o.name [] && not (eq_text o.branch []) then w.branch_base else o.name) in
    if eq_text named [] then w.repo_base else named

unfoldable pub new_workspace : CreateOptions → World → Text → Text → Workspace
new_workspace o w repo name = record {
  id = w.next_id;
  name = name;
  repo = repo;
  branch = o.branch;
  path = w.target;
  created_at = w.now;
  last_session_id = [];
  plain = false;
}

unfoldable pub add : Manager → Workspace → Manager
unfolding insert
add m w = record m { ws = insert w.name w m.ws }

-- createLocked after the path of the repository is known.
unfoldable pub create_at : Manager → CreateOptions → World → Text → Manager × CreateResult
unfolding name_of new_workspace add lookup
create_at m o w repo =
    if not w.is_repository then (m, not_a_repository) else elim (lookup (name_of o w) m.ws) [
      | some old ↦ (m, already_exists (name_of o w))
      | none ↦
          if not w.parent_ok
          then (m, no_parent)
          else if not w.worktree_ok
          then (m, git_failed)
          else (
            add m (new_workspace o w repo (name_of o w)),
            created (new_workspace o w repo (name_of o w)),
          )
    ]

-- createLocked
unfoldable pub create_locked : Manager → CreateOptions → World → Manager × CreateResult
unfolding create_at eq_text
create_locked m o w =
    if eq_text o.repo []
    then (m, no_repo)
    else elim w.abs_path [ none ↦ (m, bad_path) | some repo ↦ create_at m o w repo ]

-- What Create and CreatePlain do after their inner function: Unlock, then Save.
unfoldable pub unlock_and_save : Bool → Manager × CreateResult → Manager × CreateResult
unfolding unlock
unlock_and_save save_ok (m, created w) = (unlock m, if save_ok then created w else save_failed)
unlock_and_save save_ok (m, r) = (unlock m, r)

-- Create
unfoldable pub create : Manager → CreateOptions → World → Manager × CreateResult
unfolding lock create_locked unlock_and_save
create m o w = unlock_and_save w.save_ok (create_locked (lock m) o w)

unfoldable plain_workspace : World → Text → Text → Workspace
plain_workspace w abs name = record {
  id = w.next_id;
  name = name;
  repo = abs;
  branch = [];
  path = abs;
  created_at = w.now;
  last_session_id = [];
  plain = true;
}

unfoldable pub plain_name : Text → World → Text
unfolding eq_text
plain_name name w = if eq_text name [] then w.repo_base else name

-- createPlainLocked, which unlocks and saves by itself when it succeeds; repo_base is the last element of
-- the directory, and is_repository that it is one.
unfoldable pub create_plain_locked : Manager → Text → Text → World → Manager × CreateResult
unfolding plain_name plain_workspace add lookup unlock eq_text
create_plain_locked m dir name w = if eq_text dir [] then (m, no_dir) else elim w.abs_path [
  | none ↦ (m, bad_path)
  | some abs ↦ if not w.is_repository then (m, no_dir) else elim (lookup (plain_name name w) m.ws) [
    | some old ↦ (m, already_exists (plain_name name w))
    | none ↦ (
      unlock (add m (plain_workspace w abs (plain_name name w))),
      if w.save_ok then created (plain_workspace w abs (plain_name name w)) else save_failed,
    )
  ]
]

-- CreatePlain
unfoldable pub create_plain : Manager → Text → Text → World → Manager × CreateResult
unfolding lock create_plain_locked unlock_and_save
create_plain m dir name w = unlock_and_save w.save_ok (create_plain_locked (lock m) dir name w)

-- GetByName
unfoldable pub get_by_name : Manager → Text → Option Workspace
unfolding lookup
get_by_name m name = lookup name m.ws

-- MarkSession
unfoldable pub mark_session : Manager → Text → Text → Manager
unfolding lookup insert
mark_session m id sid = elim (lookup id m.ws) [
  | none ↦ m
  | some w ↦ record m { ws = insert id (record w { last_session_id = sid }) m.ws }
]

-- Remove of the registration
unfoldable pub remove : Manager → Text → Manager
unfolding delete
remove m name = record m { ws = delete name m.ws }

-- snapshotLocked
unfoldable pub snapshot : Manager → List Workspace
snapshot m = map (λ e. e.1) m.ws

-- Restore
unfoldable pub restore : List Workspace → Manager → Manager
unfolding insert_all
restore ws m = record m { ws = insert_all (λ w. w.id) ws [] }

-- One byte of sanitize, on ASCII
unfoldable clean_byte : ℕ → ℕ
clean_byte c =
    if (leb 97 c && leb c 122)
      || (leb 65 c && leb c 90)
      || (leb 48 c && leb c 57)
      || c == 45
      || c == 95
      || c == 46
    then c
    else 45

-- sanitize
unfoldable sanitize : Text → Text
unfolding clean_byte
sanitize s = map clean_byte s
