-- ===== src/Endpoints/Proxy.antt =====
-- `proxy_bypass` of endpoints.py. `environ` is the process environment.
pub mod Bypass
use localcloud_cli.Prelude.{
  is_nil, ℕ, Bool, true, false, not, ◌||◌, List, [], ◌∷◌, ◌++◌, Option, none, some, any, ◌=?◌,
  if◌then◌else◌,
}
use localcloud_cli.Text.{or_blank, Text, codes, elem, is_empty, strip, lower}
use localcloud_cli.Dict
use localcloud_cli.Dict.{Dict}

-- s.split(c)
abbrev pub cons_first : ℕ → List Text → List Text
cons_first d [] = (d ∷ []) ∷ []
cons_first d (t ∷ ts) = (d ∷ t) ∷ ts

unfoldable pub split : ℕ → Text → List Text
split c [] = [] ∷ []
split c (d ∷ s) = let rest = split c s in if d =? c then [] ∷ rest else cons_first d rest

-- ",".join(ts)
unfoldable pub join : List Text → Text
join [] = []
join (t ∷ []) = t
join (t ∷ u ∷ ts) = t ++ b',' ∷ join (u ∷ ts)

abbrev pub proxy_variables : List Text
proxy_variables = codes "HTTP_PROXY" ∷ codes "HTTPS_PROXY" ∷ codes "ALL_PROXY" ∷ []

-- environ.get(name) or environ.get(name.lower()) or ""
unfoldable pub proxy_setting : Dict Text → Text → Text
unfolding Dict.get lower
proxy_setting environ name =
    let upper = or_blank (Dict.get name environ) in
    if is_empty upper then or_blank (Dict.get (lower name) environ) else upper

unfoldable pub is_proxied : Dict Text → Bool
unfolding any proxy_setting strip
is_proxied environ =
    any (λ name. not (is_empty (strip (proxy_setting environ name)))) proxy_variables

-- `if host not in entries: entries.append(host)`
unfoldable pub add_host : List Text → Text → List Text
unfolding elem
add_host entries host = if elem host entries then entries else entries ++ host ∷ []

unfoldable pub add_hosts : List Text → List Text → List Text
unfolding add_host
add_hosts entries [] = entries
add_hosts entries (host ∷ hosts) = add_hosts (add_host entries host) hosts

-- The loop over the entries of one variable: blank ones are left out.
unfoldable pub add_entries : List Text → List Text → List Text
unfolding add_host strip
add_entries entries [] = entries
add_entries entries (entry ∷ more) =
    let kept = add_entries entries more in
    let added = add_entries (add_host entries (strip entry)) more in
    if is_empty (strip entry) then kept else added

-- The user's exclusions, of NO_PROXY and then of no_proxy.
unfoldable pub user_entries : Dict Text → List Text
unfolding add_entries split Dict.get
user_entries environ =
    add_entries (add_entries [] (split b',' (or_blank (Dict.get (codes "NO_PROXY") environ))))
      (split b',' (or_blank (Dict.get (codes "no_proxy") environ)))

abbrev pub both : Text → Dict Text
both value = (codes "NO_PROXY", value) ∷ (codes "no_proxy", value) ∷ []

unfoldable pub proxy_bypass : Dict Text → List Text → Dict Text
unfolding is_proxied user_entries add_hosts join elem
proxy_bypass environ hosts =
    if not (is_proxied environ) || is_nil hosts
    then []
    else if elem (codes "*") (user_entries environ)
    then both (codes "*")
    else both (join (add_hosts (user_entries environ) hosts))
