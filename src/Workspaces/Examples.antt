-- ===== src/Workspaces/Examples.antt =====
-- The workspaces of internal/workspace/manager.go at one repository and one directory.
use agent_runtime_harness.Prelude.{
  ◌≡◌, [], refl, Text, text, some, none, true, false, lookup, eq_text,
}
use agent_runtime_harness.Model.{Workspace}
use agent_runtime_harness.Workspaces.{
  Manager, new, CreateOptions, World, create, create_plain, plain_name,
}
use agent_runtime_harness.Workspaces.Keys.{create_plain_fatal}

abbrev options : Text → CreateOptions
options name = record {
  repo = text "~/app";
  branch = text "agent/fix";
  name = name;
  detach = false;
  path = [];
}

abbrev world : World
world = record {
  abs_path = some (text "/root/app");
  branch_base = text "fix";
  repo_base = text "app";
  is_repository = true;
  target = text "/state/worktrees/fix-ws-000001";
  parent_ok = true;
  worktree_ok = true;
  next_id = text "ws-000001";
  now = 10;
  save_ok = true;
}

abbrev one : Manager
one = (create new (options []) world).0

abbrev fix : Workspace
fix = record {
  id = text "ws-000001";
  name = text "fix";
  repo = text "/root/app";
  branch = text "agent/fix";
  path = text "/state/worktrees/fix-ws-000001";
  created_at = 10;
  last_session_id = [];
  plain = false;
}

lookup-one : lookup (text "fix") one.ws ≡ some fix
unfolding create new lookup
lookup-one = refl

free_name : lookup (plain_name (text "docs") world) one.ws ≡ none
unfolding create new lookup plain_name
free_name = refl

create_plain_fatal_example : (create_plain one (text "docs") (text "docs") world).0.fatal ≡ true
unfolding eq_text
create_plain_fatal_example =
    create_plain_fatal one (text "docs") (text "docs") (text "/root/app") world refl refl refl
      free_name
