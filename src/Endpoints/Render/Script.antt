-- ===== src/Endpoints/Render/Script.antt =====
-- How a POSIX shell reads a script of comments, exports and unsets: the commands that it runs.
-- Whatever else stands in the script, and an expansion inside of double quotes, is no such command.
use localcloud_cli.Prelude.{
  ℕ, Bool, true, false, not, ◌&&◌, ◌||◌, List, [], ◌∷◌, ◌++◌, Option, none, some, ◌=?◌,
  if◌then◌else◌,
}
use localcloud_cli.Text.{Text, codes, is_empty}
use localcloud_cli.Text.Patterns.{is_upper_letter, is_lower_letter, is_ascii_digit}

pub data Command : Type 0 where
  export : (name value : Text) → Command
  unset : (name : Text) → Command

-- What a shell reads: the start of a line, a comment, the rest of a word that is fixed, a name, a
-- value in double quotes, and the character after its backslash.
pub data Mode : Type 0 where
  start comment : Mode
  fixed : Text → Mode → Mode
  export_name : Text → Mode
  value : (name text : Text) → Mode
  escaped : (name text : Text) → Mode
  unset_name : Text → Mode

-- What one character does: a new mode and the command that is complete, or no script of this kind.
abbrev pub Move : Type 0
Move = Option (List Command × Mode)

abbrev pub to : Mode → Move
to m = some ([], m)

abbrev pub is_shell_char : ℕ → Bool
is_shell_char c = is_upper_letter c || is_lower_letter c || is_ascii_digit c || c =? b'_'

-- No digit comes first.
abbrev pub is_next : Text → ℕ → Bool
is_next [] c = is_shell_char c && not (is_ascii_digit c)
is_next (d ∷ s) c = is_shell_char c

-- The characters that a backslash hides inside of double quotes.
abbrev pub is_special : ℕ → Bool
is_special c = c =? b'\\' || c =? b'"' || c =? b'$' || c =? b'`'

unfoldable pub move : Mode → ℕ → Move
unfolding codes
move start c =
    if c =? b'\n'
    then to start
    else if c =? b'#'
    then to comment
    else if c =? b'e'
    then to (fixed (codes "xport ") (export_name []))
    else if c =? b'u'
    then to (fixed (codes "nset ") (unset_name []))
    else none
move comment c = if c =? b'\n' then to start else to comment
move (fixed [] m) c = none
move (fixed (d ∷ []) m) c = if c =? d then to m else none
move (fixed (d ∷ e ∷ s) m) c = if c =? d then to (fixed (e ∷ s) m) else none
move (export_name name) c =
    if c =? b'='
    then to (fixed (codes "\"") (value name []))
    else if is_next name c
    then to (export_name (name ++ c ∷ []))
    else none
move (value name text) c =
    if c =? b'"'
    then some (export name text ∷ [], fixed (codes "\n") start)
    else if c =? b'\\'
    then to (escaped name text)
    else if c =? b'$' || c =? b'`'
    then none
    else to (value name (text ++ c ∷ []))
move (escaped name text) c =
    if is_special c
    then to (value name (text ++ c ∷ []))
    else if c =? b'\n'
    then to (value name text)
    else to (value name (text ++ b'\\' ∷ c ∷ []))
move (unset_name name) c =
    if c =? b' ' && not (is_empty name)
    then some (unset name ∷ [], unset_name [])
    else if c =? b'\n' && not (is_empty name)
    then some (unset name ∷ [], start)
    else if is_next name c
    then to (unset_name (name ++ c ∷ []))
    else none

abbrev pub put_front : List Command → Option (List Command) → Option (List Command)
put_front cs none = none
put_front cs (some ds) = some (cs ++ ds)

abbrev pub is_start : Mode → Bool
is_start start = true
is_start m = false

-- The commands of a script that ends with a line. A NUL, which no variable can hold, stays as it is,
-- where a shell would drop it.
unfoldable pub read : Mode → Text → Option (List Command)
unfolding move
read m [] = if is_start m then some [] else none
read m (c ∷ s) = elim (move m c) [ none ↦ none | some (cs, n) ↦ put_front cs (read n s) ]

unfoldable pub read_script : Text → Option (List Command)
unfolding read
read_script s = read start s
