-- ===== src/Endpoints/Proxy/Bypass.antt =====
-- What the exclusions hold when a proxy is configured.
pub mod Pieces
pub mod Firsts
use localcloud_cli.Prelude.{
  ℕ, sym, Bool, not, ◌&&◌, ◌||◌, ◌=?◌, List, [], ◌∷◌, ◌++◌, arith, all, map, keep_if, and-eq-true,
  if◌then◌else◌,
}
use localcloud_cli.Text.{Text, codes, ◌==◌, elem, strip, is_empty}
use localcloud_cli.Text.Laws.{==_refl, ==_iff}
use localcloud_cli.Dict
use localcloud_cli.Dict.{Dict}
use localcloud_cli.Endpoints.Proxy.{split}
use localcloud_cli.Endpoints.Proxy.Bypass.Pieces.{commas}
use localcloud_cli.Endpoints.Proxy.Bypass.Firsts.{firsts}

-- The texts without the blanks round them, and without those that are blank.
unfoldable pub filled : List Text → List Text
unfolding strip
filled [] = []
filled (t ∷ ts) = let rest = filled ts in if is_empty (strip t) then rest else strip t ∷ rest

-- What the user and the session exclude.
abbrev pub exclusions : (user hosts : List Text) → Text
exclusions user hosts = if elem (codes "*") user then codes "*" else commas (firsts (user ++ hosts))
