-- ===== src/Endpoints/Render/Read.antt =====
-- What a shell reads in the lines that are written.
use mathlib.Core.List.{append_assoc, append-nil}
use localcloud_cli.Prelude.{
  ℕ, ◌≡◌, refl, sym, ap, ◌∙◌, true, false, not, Bool-cases, inl, inr, List, [], ◌∷◌, ◌++◌, Option,
  none, some, ◌=?◌, all, All, and-eq-true, arith,
}
use localcloud_cli.Text.{Text, codes}
use localcloud_cli.Text.Lines.{IsLine, with_feeds, join_by}
use localcloud_cli.Endpoints.Render.{is_initial, is_word_char, env_name, escape_all, shell_value}
use localcloud_cli.Endpoints.Render.Script.{
  Command, export, unset, Mode, start, comment, fixed, export_name, value, escaped, unset_name, to,
  is_special, is_next, move, put_front, read,
}
use localcloud_cli.Endpoints.Render.Escaped.{hide, escape_all-cons}

put_front-nil : (o : Option (List Command)) → put_front [] o ≡ o
put_front-nil none = refl
put_front-nil (some cs) = refl

read-to : (m n : Mode) (c : ℕ) (s : Text) → move m c ≡ to n → read m (c ∷ s) ≡ read n s
unfolding read
read-to m n c s h = rw (h, read) (put_front-nil (read n s))

read-emits :
    (m n : Mode) (c : ℕ) (s : Text) (cs : List Command)
    → move m c ≡ some (cs, n)
    → read m (c ∷ s) ≡ put_front cs (read n s)
unfolding read
read-emits m n c s cs h = rw (h, read) refl

move-fixed : (d e : ℕ) (s : Text) (m : Mode) → move (fixed (d ∷ e ∷ s) m) d ≡ to (fixed (e ∷ s) m)
unfolding move
move-fixed d e s m = ground arith

move-fixed_end : (d : ℕ) (m : Mode) → move (fixed (d ∷ []) m) d ≡ to m
unfolding move
move-fixed_end d m = ground arith

pub read-fixed :
    (d : ℕ) (s : Text) (m : Mode) (rest : Text)
    → read (fixed (d ∷ s) m) ((d ∷ s) ++ rest) ≡ read m rest
read-fixed d [] m rest = read-to (fixed (d ∷ []) m) m d rest (move-fixed_end d m)
read-fixed d (e ∷ s) m rest =
    read-to (fixed (d ∷ e ∷ s) m) (fixed (e ∷ s) m) d (e ∷ s ++ rest) (move-fixed d e s m)
    ∙ read-fixed e s m rest

move-comment : (c : ℕ) → not (c =? 10) ≡ true → move comment c ≡ to comment
unfolding move
move-comment c h = ground arith

read-comment : (s rest : Text) → IsLine s → read comment (s ++ 10 ∷ rest) ≡ read start rest
unfolding all move
read-comment [] rest h = read-to comment start 10 rest refl
read-comment (c ∷ s) rest h =
    let (here, later) = and-eq-true (not (c =? 10)) _ h in
    read-to comment comment c (s ++ 10 ∷ rest) (move-comment c here) ∙ read-comment s rest later

-- A line that a shell skips.
pub data IsComment : Text → Type 0 where
  hash : (s : Text) → IsLine s → IsComment (b'#' ∷ s)

pub read-IsComment : (t rest : Text) → IsComment t → read start (t ++ 10 ∷ rest) ≡ read start rest
unfolding move
read-IsComment t rest (hash s h) =
    read-to start comment b'#' (s ++ 10 ∷ rest) refl ∙ read-comment s rest h

pub read-with_feeds :
    (ts : List Text) (rest : Text)
    → All IsComment ts
    → read start (with_feeds ts ++ rest) ≡ read start rest
read-with_feeds [] rest h = refl
read-with_feeds (t ∷ ts) rest (here, later) =
    ap (read start) (append_assoc t (10 ∷ with_feeds ts) rest)
    ∙ read-IsComment t (with_feeds ts ++ rest) here
    ∙ read-with_feeds ts rest later

move-value :
    (n acc : Text) (c : ℕ)
    → is_special c ≡ false
    → move (value n acc) c ≡ to (value n (acc ++ c ∷ []))
unfolding move
move-value n acc c h = ground arith

move-escaped :
    (n acc : Text) (c : ℕ)
    → is_special c ≡ true
    → move (escaped n acc) c ≡ to (value n (acc ++ c ∷ []))
unfolding move
move-escaped n acc c h = rw h refl

read-hide :
    (n acc : Text) (c : ℕ) (rest : Text)
    → read (value n acc) (hide c ++ rest) ≡ read (value n (acc ++ c ∷ [])) rest
unfolding move
read-hide n acc c rest = elim (Bool-cases (is_special c)) [
  | inl special ↦ rw special (
      read-to (value n acc) (escaped n acc) b'\\' (c ∷ rest) refl
      ∙ read-to (escaped n acc) (value n (acc ++ c ∷ [])) c rest (move-escaped n acc c special))
  | inr plain ↦
      rw plain (read-to (value n acc) (value n (acc ++ c ∷ [])) c rest (move-value n acc c plain))
]

-- The value of a variable is read as it is.
pub read-escape_all :
    (n acc v rest : Text)
    → read (value n acc) (escape_all v ++ b'"' ∷ 10 ∷ rest)
      ≡ put_front (export n (acc ++ v) ∷ []) (read start rest)
unfolding escape_all move codes
read-escape_all n acc [] rest =
    read-emits (value n acc) (fixed (10 ∷ []) start) b'"' (10 ∷ rest) (export n acc ∷ []) refl
    ∙ ap (put_front (export n acc ∷ [])) (read-fixed 10 [] start rest)
    ∙ ap (λ t. put_front (export n t ∷ []) (read start rest)) (sym (append-nil acc))
read-escape_all n acc (c ∷ v) rest =
    ap (λ e. read (value n acc) (e ++ b'"' ∷ 10 ∷ rest)) (escape_all-cons c v)
    ∙ ap (read (value n acc)) (append_assoc (hide c) (escape_all v) (b'"' ∷ 10 ∷ rest))
    ∙ read-hide n acc c (escape_all v ++ b'"' ∷ 10 ∷ rest)
    ∙ read-escape_all n (acc ++ c ∷ []) v rest
    ∙ ap (λ t. put_front (export n t ∷ []) (read start rest)) (append_assoc acc (c ∷ []) v)

move-export_name :
    (acc : Text) (c : ℕ)
    → is_next acc c ≡ true
    → move (export_name acc) c ≡ to (export_name (acc ++ c ∷ []))
unfolding move
move-export_name [] c h = ground arith
move-export_name (d ∷ acc) c h = ground arith

move-unset_name :
    (acc : Text) (c : ℕ)
    → is_next acc c ≡ true
    → move (unset_name acc) c ≡ to (unset_name (acc ++ c ∷ []))
unfolding move
move-unset_name [] c h = ground arith
move-unset_name (d ∷ acc) c h = ground arith

-- A mode that collects a name.
record Collects (m : Text → Mode) : Type 0 where
  pub next : (acc : Text) (c : ℕ) → is_next acc c ≡ true → move (m acc) c ≡ to (m (acc ++ c ∷ []))

is_next-append : (d : ℕ) (acc : Text) (c : ℕ) → is_word_char c ≡ true → is_next (d ∷ acc) c ≡ true
is_next-append d acc c h = ground arith

read-word :
    (m : Text → Mode) (d : ℕ) (acc s rest : Text)
    → Collects m
    → all is_word_char s ≡ true
    → read (m (d ∷ acc)) (s ++ rest) ≡ read (m (d ∷ acc ++ s)) rest
unfolding all
read-word m d acc [] rest k h = ap (λ t. read (m (d ∷ t)) rest) (sym (append-nil acc))
read-word m d acc (c ∷ s) rest k h =
    let (here, later) = and-eq-true (is_word_char c) _ h in
    read-to (m (d ∷ acc)) (m (d ∷ acc ++ c ∷ [])) c (s ++ rest)
      (k.next (d ∷ acc) c (is_next-append d acc c here))
    ∙ read-word m d (acc ++ c ∷ []) s rest k later
    ∙ ap (λ t. read (m (d ∷ t)) rest) (append_assoc acc (c ∷ []) s)

read-name :
    (m : Text → Mode) (name rest : Text)
    → Collects m
    → env_name name ≡ true
    → read (m []) (name ++ rest) ≡ read (m name) rest
unfolding env_name
read-name m [] rest k h = cc
read-name m (c ∷ s) rest k h =
    let (here, later) = and-eq-true (is_initial c) _ h in
    read-to (m []) (m (c ∷ [])) c (s ++ rest) (k.next [] c (ground arith))
    ∙ read-word m c [] s rest k later

export_line :
    (name v rest : Text)
    → (codes "export " ++ name ++ codes "=" ++ shell_value v) ++ 10 ∷ rest
      ≡ codes "export " ++ (name ++ b'=' ∷ b'"' ∷ (escape_all v ++ b'"' ∷ 10 ∷ rest))
unfolding codes shell_value
export_line name v rest = simp append_assoc

-- An export is read as it is meant.
pub read-export :
    (name v rest : Text)
    → env_name name ≡ true
    → read start ((codes "export " ++ name ++ codes "=" ++ shell_value v) ++ 10 ∷ rest)
      ≡ put_front (export name v ∷ []) (read start rest)
unfolding codes move
read-export name v rest h =
    let quoted = escape_all v ++ b'"' ∷ 10 ∷ rest in
    ap (read start) (export_line name v rest)
    ∙ read-to start (fixed (codes "xport ") (export_name [])) b'e' _ refl
    ∙ read-fixed b'x' (codes "port ") (export_name []) (name ++ b'=' ∷ b'"' ∷ quoted)
    ∙ read-name export_name name (b'=' ∷ b'"' ∷ quoted) (record { next = move-export_name }) h
    ∙ read-to (export_name name) (fixed (codes "\"") (value name [])) b'=' (b'"' ∷ quoted) refl
    ∙ read-fixed b'"' [] (value name []) quoted
    ∙ read-escape_all name [] v rest

abbrev pub unsets : List Text → List Command
unsets [] = []
unsets (name ∷ names) = unset name ∷ unsets names

move-space :
    (d : ℕ) (s : Text) → move (unset_name (d ∷ s)) b' ' ≡ some (unset (d ∷ s) ∷ [], unset_name [])
unfolding move
move-space d s = refl

move-newline : (d : ℕ) (s : Text) → move (unset_name (d ∷ s)) 10 ≡ some (unset (d ∷ s) ∷ [], start)
unfolding move
move-newline d s = refl

read-unset_name :
    (name rest : Text) (c : ℕ) (m : Mode)
    → env_name name ≡ true
    → move (unset_name name) c ≡ some (unset name ∷ [], m)
    → read (unset_name []) (name ++ c ∷ rest) ≡ put_front (unset name ∷ []) (read m rest)
read-unset_name name rest c m h e =
    read-name unset_name name (c ∷ rest) (record { next = move-unset_name }) h
    ∙ read-emits (unset_name name) m c rest (unset name ∷ []) e

ends_name :
    (name : Text)
    → env_name name ≡ true
    → (move (unset_name name) b' ' ≡ some (unset name ∷ [], unset_name []))
      × (move (unset_name name) 10 ≡ some (unset name ∷ [], start))
unfolding env_name
ends_name [] h = cc
ends_name (d ∷ s) h = (move-space d s, move-newline d s)

put_front-put_front :
    (c : Command) (cs : List Command) (o : Option (List Command))
    → put_front (c ∷ []) (put_front cs o) ≡ put_front (c ∷ cs) o
put_front-put_front c cs none = refl
put_front-put_front c cs (some ds) = refl

read-unset_names :
    (name : Text) (names : List Text) (rest : Text)
    → All (λ n. env_name n ≡ true) (name ∷ names)
    → read (unset_name []) (join_by (codes " ") (name ∷ names) ++ 10 ∷ rest)
      ≡ put_front (unsets (name ∷ names)) (read start rest)
unfolding join_by codes
read-unset_names name [] rest (h, k) = read-unset_name name rest 10 start h (ends_name name h).1
read-unset_names name (n ∷ names) rest (h, k) =
    ap (read (unset_name []))
      (append_assoc name (b' ' ∷ join_by (codes " ") (n ∷ names)) (10 ∷ rest))
    ∙ read-unset_name name (join_by (codes " ") (n ∷ names) ++ 10 ∷ rest) b' ' (unset_name []) h
        (ends_name name h).0
    ∙ ap (put_front (unset name ∷ [])) (read-unset_names n names rest k)
    ∙ put_front-put_front (unset name) (unsets (n ∷ names)) (read start rest)

-- A list of names is unset name by name.
pub read-unset :
    (name : Text) (names : List Text) (rest : Text)
    → All (λ n. env_name n ≡ true) (name ∷ names)
    → read start ((codes "unset " ++ join_by (codes " ") (name ∷ names)) ++ 10 ∷ rest)
      ≡ put_front (unsets (name ∷ names)) (read start rest)
unfolding codes move
read-unset name names rest h =
    let listed = join_by (codes " ") (name ∷ names) in
    ap (read start) (append_assoc (codes "unset ") listed (10 ∷ rest))
    ∙ read-to start (fixed (codes "nset ") (unset_name [])) b'u' _ refl
    ∙ read-fixed b'n' (codes "set ") (unset_name []) (listed ++ 10 ∷ rest)
    ∙ read-unset_names name names rest h
