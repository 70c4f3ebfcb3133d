-- ===== src/Endpoints/Identity/Rewritten.antt =====
-- The variables of an identity session.
use localcloud_cli.Prelude.{
  is_nil, ℕ, ◌≡◌, refl, ◌∙◌, false, not, ◌||◌, List, [], ◌∷◌, some, pos, all, arith, Bool-cases,
  inl, inr, if◌then◌else◌, ok, raise_if, ◌⊎◌, Returns, Returns-ok, Returns-after,
}
use localcloud_cli.Text.{Text, codes, elem}
use localcloud_cli.Text.Laws.{==_comm}
use localcloud_cli.Text.Numbers.{show_int}
use localcloud_cli.Dict
use localcloud_cli.Dict.{Dict}
use localcloud_cli.Dict.Laws.{get-put}
use localcloud_cli.Value.{dict, Entries, Items, items, get}
use localcloud_cli.Endpoints.Proxy.{is_proxied, user_entries, add_hosts, join, both, proxy_bypass}
use localcloud_cli.Endpoints.Identity.{
  put_all, update, address, identity_environment, is_kind, variables_of, names_of, host_of, port_of,
  same_address, bypass_hosts, invalid_profile,
}

get-put_all :
    (j t : Text) (ks : List Text) (d : Dict Text)
    → Dict.get j (put_all ks t d) ≡ (if elem j ks then some t else Dict.get j d)
unfolding put_all elem
get-put_all j t [] d = refl
get-put_all j t (k ∷ ks) d =
    ground (arith, get-put_all j t ks (Dict.put k t d), get-put k j t d, ==_comm k j)

-- The bypass sets two variables at most.
get-update-both :
    (j t : Text) (d : Dict Text)
    → elem j (codes "NO_PROXY" ∷ codes "no_proxy" ∷ []) ≡ false
    → Dict.get j (update d (both t)) ≡ Dict.get j d
unfolding update elem
get-update-both j t d h = ground (
  arith,
  get-put (codes "no_proxy") j t (Dict.put (codes "NO_PROXY") t d),
  get-put (codes "NO_PROXY") j t d,
  ==_comm (codes "no_proxy") j,
  ==_comm (codes "NO_PROXY") j,
)

proxy_bypass-cases :
    (environ : Dict Text) (hosts : List Text)
    → (proxy_bypass environ hosts ≡ []) ⊎ ((t : Text) × (proxy_bypass environ hosts ≡ both t))
unfolding proxy_bypass
proxy_bypass-cases environ hosts = elim (Bool-cases (not (is_proxied environ) || is_nil hosts)) [
  | inl direct ↦ inl (rw direct refl)
  | inr proxied ↦ elim (Bool-cases (elem (codes "*") (user_entries environ))) [
    | inl every ↦ inr (codes "*", rw (proxied, every) refl)
    | inr some_host ↦
        inr (join (add_hosts (user_entries environ) hosts), rw (proxied, some_host) refl)
  ]
]

get-update-proxy_bypass :
    (j : Text) (environ : Dict Text) (hosts : List Text) (d : Dict Text)
    → elem j (codes "NO_PROXY" ∷ codes "no_proxy" ∷ []) ≡ false
    → Dict.get j (update d (proxy_bypass environ hosts)) ≡ Dict.get j d
unfolding update
get-update-proxy_bypass j environ hosts d h = elim (proxy_bypass-cases environ hosts) [
  | inl none_set ↦ rw none_set refl
  | inr (t, e) ↦ rw e (get-update-both j t d h)
]

-- What the fields of a profile say.
pub record IsProfile (fields : Items) (variables : Dict Text) (names : List Text) (host : Text)
    : Type 0 where
  pub environment : variables_of (get (codes "environment") fields) ≡ ok variables
  pub endpoint_variables : names_of (get (codes "endpointVariables") fields) ≡ ok names
  pub metadata_host : host_of (get (codes "metadataHost") fields) ≡ ok host

-- The environment of the profile, with its endpoint variables on the relay's port, up to the bypass.
abbrev pub IsRewritten : Items → ℕ → Text → Dict Text × List Text → Type 0
IsRewritten fields host_port j (environment, names) =
    (variables : Dict Text) × (host : Text) × IsProfile fields variables names host
    × (Dict.get j environment ≡ (
        if elem j names
        then some (address host (show_int (pos host_port)))
        else Dict.get j variables))

module _ (es : Entries) (host_port : ℕ) (environ : Dict Text) (j : Text)
    (other : elem j (codes "NO_PROXY" ∷ codes "no_proxy" ∷ []) ≡ false) where
  environment-IsRewritten :
      Returns
        (IsRewritten (items es) host_port j)
        (identity_environment (dict es) host_port environ)
  unfolding identity_environment
  environment-IsRewritten =
      let fields = items es in
      Returns-after (raise_if (not (is_kind (get (codes "kind") fields))) invalid_profile) _ λ _ _.
        Returns-after (variables_of (get (codes "environment") fields)) _ λ variables e1.
          Returns-after (names_of (get (codes "endpointVariables") fields)) _ λ names e2.
            Returns-after (raise_if (is_nil names) invalid_profile) _ λ _ _.
              Returns-after (host_of (get (codes "metadataHost") fields)) _ λ host e3.
                Returns-after (port_of (get (codes "metadataPort") fields)) _ λ port _.
                  Returns-after
                    (raise_if
                      (not
                        (all (λ k. same_address (address host port) (Dict.get k variables)) names))
                      invalid_profile)
                    _
                    λ _ _. Returns-after (bypass_hosts (get (codes "noProxy") fields)) _ λ hosts _.
                      let moved = address host (show_int (pos host_port)) in
                      Returns-ok _ (
                        variables,
                        host,
                        record { environment = e1; endpoint_variables = e2; metadata_host = e3 },
                        get-update-proxy_bypass j environ hosts (put_all names moved variables)
                              other
                            ∙ get-put_all j moved names variables,
                      )

  -- In the environment of an identity session, every endpoint variable that the profile names holds
  -- the profile's host and the port that the relay is published on, and every other variable is as in
  -- the profile, except NO_PROXY and no_proxy.
  pub identity_environment-IsRewritten :
      (environment : Dict Text) (names : List Text)
      → identity_environment (dict es) host_port environ ≡ ok (environment, names)
      → IsRewritten (items es) host_port j (environment, names)
  identity_environment-IsRewritten environment names =
      environment-IsRewritten.at (environment, names)
