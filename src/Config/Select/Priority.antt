-- ===== src/Config/Select/Priority.antt =====
-- Which source of the configuration file and of the project wins.
use localcloud_cli.Prelude.{
  ◌≡◌, refl, Bool, true, false, not, ◌&&◌, List, [], ◌∷◌, Option, none, some, Result, ok, arith,
  all, if◌then◌else◌, Returns, Returns-ok, Returns-raise, Returns-if, Returns-bind, Bool-cases, inl,
  inr,
}
use localcloud_cli.Text.{Text, codes, strip}
use localcloud_cli.Value.{is_null, Value, null, bool, int, float, str, other, list, dict}
use localcloud_cli.Config.Fields.{invalid, validate_project, default_project, project_id_pattern}
use localcloud_cli.Config.Select.{
  ConfigSource, ProjectSource, flag, config, git, default, is_pinning, with_source, shared_project,
  select_project,
}

-- A source of the project: what it gives, if anything.
abbrev Source : Type 0
Source = Option (Result (Text × ProjectSource))

-- The first source that gives something.
abbrev pub first_of : List Source → Result (Text × ProjectSource) → Result (Text × ProjectSource)
first_of [] last = last
first_of (none ∷ sources) last = first_of sources last
first_of (some project ∷ sources) last = project

abbrev pub from_flag : Option Text → Source
from_flag none = none
from_flag (some project) = some (with_source (validate_project (str project)) flag)

abbrev pub from_document : Value → ProjectSource → Source
from_document v kind = if is_null v then none else some (with_source (validate_project v) kind)

abbrev pub from_repository : Option Text → Source
from_repository none = none
from_repository (some project) = some (ok (project, git))

abbrev pub only_if : Bool → Source → Source
only_if true s = s
only_if false s = none

shared_project_lem :
    (p : Option Text) (v : Value)
    → shared_project p v
      ≡ first_of (from_repository p ∷ from_document v default ∷ []) (ok (default_project, default))
shared_project_lem (some p) v = refl
shared_project_lem none null = refl
shared_project_lem none (bool b) = refl
shared_project_lem none (int n) = refl
shared_project_lem none (float t n) = refl
shared_project_lem none (str t) = refl
shared_project_lem none (other t) = refl
shared_project_lem none (list vs) = refl
shared_project_lem none (dict es) = refl

and_false : (b : Bool) → (b && false) ≡ false
and_false b = ground arith

unflagged :
    (v : Value) (pinning from_git : Bool) (p : Option Text)
    → (if not (is_null v) && pinning
        then with_source (validate_project v) config
        else shared_project (if from_git then p else none) v)
      ≡ first_of
          (only_if pinning (from_document v config)
            ∷ only_if from_git (from_repository p)
            ∷ from_document v default
            ∷ [])
          (ok (default_project, default))
unflagged v true true p = elim (Bool-cases (is_null v)) [
  | inl blank ↦ rw (blank, shared_project_lem p v) (rw blank refl)
  | inr given ↦ rw given refl
]
unflagged v true false p = elim (Bool-cases (is_null v)) [
  | inl blank ↦ rw (blank, shared_project_lem none v) (rw blank refl)
  | inr given ↦ rw given refl
]
unflagged v false true p = rw (and_false (not (is_null v))) (shared_project_lem p v)
unflagged v false false p = rw (and_false (not (is_null v))) (shared_project_lem none v)

-- The project is that of the first source that gives one: the argument, the document where it was
-- chosen for this directory or command, the repository where it is asked for, any other document,
-- and then the default. A source whose value is refused is not passed over.
pub select_project-first_of :
    (argument : Option Text) (configured : Value) (source : Option ConfigSource) (from_git : Bool)
    (git_project : Option Text)
    → select_project argument configured source from_git git_project
      ≡ first_of
          (from_flag argument
            ∷ only_if (is_pinning source) (from_document configured config)
            ∷ only_if from_git (from_repository git_project)
            ∷ from_document configured default
            ∷ [])
          (ok (default_project, default))
unfolding select_project
select_project-first_of (some t) v s g p = refl
select_project-first_of none v s g p = unflagged v (is_pinning s) g p

-- A project ID that the pattern accepts.
abbrev pub IsProject : Text → Type 0
IsProject t = project_id_pattern t ≡ true

default_project-IsProject : IsProject default_project
unfolding project_id_pattern codes all
default_project-IsProject = refl

validate_project-IsProject : (v : Value) → Returns IsProject (validate_project v)
unfolding validate_project
validate_project-IsProject null = Returns-ok default_project default_project-IsProject
validate_project-IsProject (str t) =
    Returns-if _ _ _ (λ h. Returns-ok (strip t) h) λ h. Returns-raise invalid
validate_project-IsProject (bool b) = Returns-raise invalid
validate_project-IsProject (int n) = Returns-raise invalid
validate_project-IsProject (float t n) = Returns-raise invalid
validate_project-IsProject (other t) = Returns-raise invalid
validate_project-IsProject (list vs) = Returns-raise invalid
validate_project-IsProject (dict es) = Returns-raise invalid

abbrev pub IsSelectedProject : Text × ProjectSource → Type 0
IsSelectedProject (project, kind) = IsProject project

with_source-IsSelectedProject :
    (v : Value) (kind : ProjectSource)
    → Returns IsSelectedProject (with_source (validate_project v) kind)
with_source-IsSelectedProject v kind =
    Returns-bind (validate_project v) _ (validate_project-IsProject v) λ t h. Returns-ok (t, kind) h

-- What the repository suggests is a project ID.
abbrev pub IsSuggestion : Option Text → Type 0
IsSuggestion none = Unit {0}
IsSuggestion (some t) = IsProject t

shared_project-IsSelectedProject :
    (p : Option Text) (v : Value) → IsSuggestion p → Returns IsSelectedProject (shared_project p v)
shared_project-IsSelectedProject (some t) v h = Returns-ok (t, git) h
shared_project-IsSelectedProject none null h =
    Returns-ok (default_project, default) default_project-IsProject
shared_project-IsSelectedProject none (bool b) h = with_source-IsSelectedProject (bool b) default
shared_project-IsSelectedProject none (int n) h = with_source-IsSelectedProject (int n) default
shared_project-IsSelectedProject none (float t n) h =
    with_source-IsSelectedProject (float t n) default
shared_project-IsSelectedProject none (str t) h = with_source-IsSelectedProject (str t) default
shared_project-IsSelectedProject none (other t) h = with_source-IsSelectedProject (other t) default
shared_project-IsSelectedProject none (list vs) h = with_source-IsSelectedProject (list vs) default
shared_project-IsSelectedProject none (dict es) h = with_source-IsSelectedProject (dict es) default

asked : (b : Bool) (p : Option Text) → IsSuggestion p → IsSuggestion (if b then p else none)
asked true p h = h
asked false p h = tt

pub select_project-IsSelectedProject :
    (argument : Option Text) (v : Value) (source : Option ConfigSource) (from_git : Bool)
    (p : Option Text)
    → IsSuggestion p
    → Returns IsSelectedProject (select_project argument v source from_git p)
unfolding select_project
select_project-IsSelectedProject (some t) v s g p h = with_source-IsSelectedProject (str t) flag
select_project-IsSelectedProject none v s g p h =
    Returns-if _ _ _ (λ k. with_source-IsSelectedProject v config)
      λ k. shared_project-IsSelectedProject (if g then p else none) v (asked g p h)
