-- ===== src/Policy.antt =====
-- internal/policy/policy.go: the policy engine, Evaluate with its tables and its choice of a rule.
-- A reason is a constructor in place of its message.
pub mod Choice
pub mod Decisions
mod Examples
use agent_runtime_harness.Prelude.{
  ℕ, Text, text, eq_text, has_prefix, trim_last, Option, none, some, Bool, true, false, ◌&&◌, ◌||◌,
  List, [], ◌∷◌, length, ltb, if◌then◌else◌, mem_text,
}

-- config.PolicyRule
pub record PolicyRule : Type 0 where
  pub subject : Text
  pub allow : List Text
  pub deny : List Text

pub data Reason : Type 0 where
  reserved : Reason
  denied_by_rule : Text → Reason
  not_allowed_by_rule : Text → Reason
  not_in_default : Reason

pub record DenyError : Type 0 where
  pub subject : Text
  pub capability : Text
  pub reason : Reason

-- The keys of alwaysDeny.
abbrev pub always_deny : List Text
always_deny =
    text "host_process.kill"
    ∷ text "tool.install"
    ∷ text "tool.modify"
    ∷ text "other_session.modify"
    ∷ []

-- The keys of defaultAllow that are true; daemon.admin is false, like every name that is missing.
abbrev pub default_allow : List Text
default_allow =
    text "session.create"
    ∷ text "session.list"
    ∷ text "session.get"
    ∷ text "session.kill"
    ∷ text "tool.execute"
    ∷ text "tool.list"
    ∷ text "tool.inspect"
    ∷ text "lease.acquire"
    ∷ text "lease.release"
    ∷ text "lease.list"
    ∷ text "resource.list"
    ∷ text "port.allocate"
    ∷ text "port.release"
    ∷ text "workspace.create"
    ∷ text "workspace.list"
    ∷ text "workspace.remove"
    ∷ text "run.list"
    ∷ text "run.get"
    ∷ text "log.read"
    ∷ []

-- r.Subject == "*" || strings.HasPrefix(subject, strings.TrimSuffix(r.Subject, "*"))
pub matches : Text → PolicyRule → Bool
unfolding eq_text has_prefix trim_last
matches subject r = eq_text r.subject (text "*") || has_prefix subject (trim_last r.subject b'*')

-- len(r.Subject) > best, where best is -1 as long as no rule is chosen.
pub is_longer : PolicyRule → Option PolicyRule → Bool
is_longer r none = true
is_longer r (some best) = ltb (length best.subject) (length r.subject)

-- The loop over the rules, from the rule chosen so far.
pub choose : Text → Option PolicyRule → List PolicyRule → Option PolicyRule
unfolding matches is_longer
choose subject chosen [] = chosen
choose subject chosen (r ∷ rules) =
    choose subject (if matches subject r && is_longer r chosen then some r else chosen) rules

-- The loop over chosen.Deny or chosen.Allow: an entry is the capability or "*".
pub lists : Text → List Text → Bool
unfolding eq_text
lists capability [] = false
lists capability (e ∷ es) = eq_text e capability || eq_text e (text "*") || lists capability es

-- What the chosen rule says.
pub apply_rule : PolicyRule → Text → Option Reason
unfolding lists
apply_rule r capability =
    if lists capability r.deny
    then some (denied_by_rule r.subject)
    else if lists capability r.allow
    then none
    else some (not_allowed_by_rule r.subject)

-- The body of Evaluate, from the two tables' answers and the chosen rule.
pub judge : Bool → Bool → Option PolicyRule → Text → Option Reason
unfolding apply_rule
judge is_reserved is_default chosen capability =
    if is_reserved then some reserved else elim chosen [
      | some r ↦ apply_rule r capability
      | none ↦ if is_default then none else some not_in_default
    ]

pub refusal : List PolicyRule → Text → Text → Option Reason
unfolding mem_text choose judge
refusal rules subject capability =
    judge (mem_text capability always_deny) (mem_text capability default_allow)
      (choose subject none rules) capability

-- Evaluate; none is the nil error.
unfoldable pub evaluate : List PolicyRule → Text → Text → Option DenyError
unfolding refusal
evaluate rules subject capability = elim (refusal rules subject capability) [
  | none ↦ none
  | some why ↦ some (record { subject = subject; capability = capability; reason = why })
]
