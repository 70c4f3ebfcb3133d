-- ===== src/Endpoints/Render/Escaped.antt =====
-- The four replacements of `_shell_value` are one pass.
use localcloud_cli.Prelude.{ℕ, ◌≡◌, ap, ◌∙◌, [], ◌∷◌, ◌++◌, arith, if◌then◌else◌}
use localcloud_cli.Text.{Text, codes}
use localcloud_cli.Text.Lines.{replace, replace-append}
use localcloud_cli.Endpoints.Render.{escape_all}
use localcloud_cli.Endpoints.Render.Script.{is_special}

abbrev pub hide : ℕ → Text
hide c = if is_special c then b'\\' ∷ c ∷ [] else c ∷ []

escape_all-append : (r s : Text) → escape_all (r ++ s) ≡ escape_all r ++ escape_all s
unfolding codes escape_all
escape_all-append r s = simp replace-append

escape_all-char : (c : ℕ) → escape_all (c ∷ []) ≡ hide c
unfolding codes replace escape_all
escape_all-char c = ground arith

pub escape_all-cons : (c : ℕ) (s : Text) → escape_all (c ∷ s) ≡ hide c ++ escape_all s
escape_all-cons c s = escape_all-append (c ∷ []) s ∙ ap (λ r. r ++ escape_all s) (escape_all-char c)
