-- ===== src/Endpoints/Render/Scripts.antt =====
-- The scripts that are written set and unset the variables that they are about, and do nothing else.
use mathlib.Core.List.{append_assoc, append-nil}
use localcloud_cli.Prelude.{
  ◌≡◌, refl, sym, ap, ◌∙◌, Bool, true, false, not, ◌||◌, Bool-cases, inl, inr, List, [], ◌∷◌, ◌++◌,
  some, all, any, All, All-append, all-append, keep_if, arith, if◌then◌else◌, ok, Returns,
  Returns-after, Returns-bind, Returns-ok, Returns-raise_if,
}
use localcloud_cli.Text.{Text, codes, ◌==◌}
use localcloud_cli.Text.Lines.{
  IsLine, splitlines, splitlines-IsLine, join_by, join_lines, with_feeds, join_lines-with_feeds,
}
use localcloud_cli.Dict.{Dict}
use localcloud_cli.Endpoints.Render.{
  env_name, with_prefix, comment_lines, summary, warning_lines, exports, names_in, Rendered,
  Printer, shell_lines, rendered, addresses, render_identity_environment, StopFailure, subject,
  Stopped, stop_summary, failure_lines, unset_lines, render_identity_stop,
}
use localcloud_cli.Endpoints.Render.Script.{Command, export, start, put_front, read, read_script}
use localcloud_cli.Endpoints.Render.Read.{
  IsComment, hash, read-with_feeds, read-export, unsets, read-unset,
}

with_prefix-IsComment :
    (q : Text) (ts : List Text)
    → IsLine q
    → All IsLine ts
    → All IsComment (with_prefix (b'#' ∷ q) ts)
unfolding with_prefix
with_prefix-IsComment q [] h k = tt
with_prefix-IsComment q (t ∷ ts) h (here, later) =
    (hash (q ++ t) (all-append _ q t h here), with_prefix-IsComment q ts h later)

comment_lines-IsComment : (q s : Text) → IsLine q → All IsComment (comment_lines (b'#' ∷ q) s)
unfolding comment_lines
comment_lines-IsComment q s h = with_prefix-IsComment q (splitlines s) h (splitlines-IsLine s)

warning_lines-IsComment : (ws : List Text) → All IsComment (warning_lines ws)
unfolding warning_lines codes all
warning_lines-IsComment [] = tt
warning_lines-IsComment (w ∷ ws) =
    All-append IsComment _ _ (comment_lines-IsComment (codes " WARNING: ") w refl)
      (warning_lines-IsComment ws)

failure_lines-IsComment : (xs : List StopFailure) → All IsComment (failure_lines xs)
unfolding failure_lines codes all
failure_lines-IsComment [] = tt
failure_lines-IsComment (x ∷ xs) =
    All-append IsComment _ _
      (comment_lines-IsComment (codes " WARNING: ") (subject x ++ codes ": " ++ x.cause) refl)
      (failure_lines-IsComment xs)

summary-IsComment : (s : Text) → All IsComment (comment_lines (codes "# ") s)
unfolding codes all
summary-IsComment s = comment_lines-IsComment (codes " ") s refl

with_feeds-append : (ts us : List Text) → with_feeds (ts ++ us) ≡ with_feeds ts ++ with_feeds us
with_feeds-append [] us = refl
with_feeds-append (t ∷ ts) us =
    ap (λ s. t ++ b'\n' ∷ s) (with_feeds-append ts us)
    ∙ sym (append_assoc t (b'\n' ∷ with_feeds ts) (with_feeds us))

read-comments :
    (ts us : List Text)
    → All IsComment ts
    → read start (with_feeds (ts ++ us)) ≡ read start (with_feeds us)
read-comments ts us h =
    ap (read start) (with_feeds-append ts us) ∙ read-with_feeds ts (with_feeds us) h

read-join_lines :
    (ts : List Text) → read start (join_lines ts ++ b'\n' ∷ []) ≡ read start (with_feeds ts)
unfolding join_by read
read-join_lines [] = refl
read-join_lines (t ∷ ts) = ap (read start) (join_lines-with_feeds t ts)

-- The commands that set the variables of an environment.
abbrev pub sets : Dict Text → List Command
sets [] = []
sets ((name, value) ∷ d) = export name value ∷ sets d

read-exports :
    (d : Dict Text)
    → All (λ n. env_name n ≡ true) (names_in d)
    → read start (with_feeds (exports d)) ≡ some (sets d)
unfolding exports read
read-exports [] h = refl
read-exports ((name, value) ∷ d) (here, later) =
    read-export name value (with_feeds (exports d)) here
    ∙ ap (put_front (export name value ∷ [])) (read-exports d later)

not_or : (a b : Bool) → (not a || b) ≡ false → (a ≡ true) × (b ≡ false)
not_or a b h = (ground arith, ground arith)

any-All :
    (ns : List Text) → any (λ n. not (env_name n)) ns ≡ false → All (λ n. env_name n ≡ true) ns
unfolding any
any-All [] h = tt
any-All (n ∷ ns) h =
    let (here, later) = not_or (env_name n) (any (λ m. not (env_name m)) ns) h in
    (here, any-All ns later)

read-shell_lines :
    (w : Printer) (r : Rendered)
    → All (λ n. env_name n ≡ true) (names_in r.environment)
    → read start (join_lines (shell_lines w r) ++ b'\n' ∷ []) ≡ some (sets r.environment)
unfolding shell_lines codes
read-shell_lines w r h =
    read-join_lines (shell_lines w r)
    ∙ read-comments (comment_lines (codes "# ") (summary r.session) ++ warning_lines r.warnings)
        (exports r.environment)
        (All-append IsComment _ _ (summary-IsComment (summary r.session))
          (warning_lines-IsComment r.warnings))
    ∙ read-exports r.environment h

-- Whether a text is the shell's form of the output.
abbrev pub IsShell : Text → Type 0
IsShell output_format =
    ((output_format == codes "json") ≡ false) × ((output_format == codes "docker-compose") ≡ false)

rendered_environment :
    (w : Printer) (output_format : Text) (r : Rendered)
    → IsShell output_format
    → Returns
        (λ text. read start text ≡ some (sets r.environment))
        (render_identity_environment w output_format r)
unfolding render_identity_environment rendered codes
rendered_environment w output_format r (no_json, no_compose) =
    Returns-bind _ _
      (Returns-raise_if (any (λ name. not (env_name name)) (names_in r.environment)) _)
      λ u named.
        Returns-after (w.validate_local_endpoints (addresses r.environment r.endpoint_variables []))
          _
          λ u1 e. Returns-ok _ (
            rw (no_json, no_compose)
              (read-shell_lines w r (any-All (names_in r.environment) named)))

-- A shell that evaluates the output of `lc env --identity` sets the variables of the environment, each
-- to exactly its value, in their order, and runs nothing else, whatever stands in the values, in the
-- warnings and in what is told of the session.
pub read-render_identity_environment :
    (w : Printer) (output_format : Text) (r : Rendered) (text : Text)
    → IsShell output_format
    → render_identity_environment w output_format r ≡ ok text
    → read_script text ≡ some (sets r.environment)
unfolding read_script
read-render_identity_environment w output_format r text shell h =
    (rendered_environment w output_format r shell).at text h

keep_if-All : (ns : List Text) → All (λ n. env_name n ≡ true) (keep_if env_name ns)
unfolding keep_if
keep_if-All [] = tt
keep_if-All (n ∷ ns) = elim (Bool-cases (env_name n)) [
  | inl named ↦ rw (named, keep_if) (named, keep_if-All ns)
  | inr other ↦ rw (other, keep_if) (keep_if-All ns)
]

one_unset :
    (n : Text) (ns : List Text)
    → All (λ m. env_name m ≡ true) (n ∷ ns)
    → read start (with_feeds ((codes "unset " ++ join_by (codes " ") (n ∷ ns)) ∷ []))
      ≡ some (unsets (n ∷ ns))
unfolding read
one_unset n ns h = read-unset n ns [] h ∙ ap (λ cs. some cs) (append-nil (unsets (n ∷ ns)))

read-unset_lines :
    (output_format : Text) (ns : List Text)
    → All (λ n. env_name n ≡ true) ns
    → read start (with_feeds (unset_lines output_format ns))
      ≡ some (if output_format == codes "docker-compose" then [] else unsets ns)
unfolding unset_lines read codes
read-unset_lines output_format [] h = elim (Bool-cases (output_format == codes "docker-compose")) [
  | inl compose ↦ rw compose refl
  | inr shell ↦ rw shell refl
]
read-unset_lines output_format (n ∷ ns) h =
    elim (Bool-cases (output_format == codes "docker-compose")) [
      | inl compose ↦ rw compose refl
      | inr shell ↦ rw shell (one_unset n ns h)
    ]

-- A shell that evaluates the output of `lc env --identity --stop` unsets the variables whose names are
-- names of variables, in their order, and runs nothing else, whatever stands in the failures and in the
-- names of the sessions; the output for docker-compose runs nothing.
pub read-render_identity_stop :
    (json : Stopped → Text) (output_format : Text) (r : Stopped)
    → (output_format == codes "json") ≡ false
    → read_script (render_identity_stop json output_format r)
      ≡ some (
          if output_format == codes "docker-compose"
          then []
          else unsets (keep_if env_name r.unset_variables))
unfolding read_script render_identity_stop codes
read-render_identity_stop json output_format r h =
    let told = comment_lines (codes "# ") (stop_summary r) ++ failure_lines r.failures in
    let cleared = unset_lines output_format (keep_if env_name r.unset_variables) in
    rw h (
      read-join_lines (told ++ cleared)
      ∙ read-comments told cleared (
          All-append IsComment _ _ (summary-IsComment (stop_summary r))
            (failure_lines-IsComment r.failures))
      ∙ read-unset_lines output_format (keep_if env_name r.unset_variables)
          (keep_if-All r.unset_variables))
