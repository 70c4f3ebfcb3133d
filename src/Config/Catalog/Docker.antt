-- ===== src/Config/Catalog/Docker.antt =====
-- When the automatic mode mounts the Docker socket.
pub mod Dependencies
use mathlib.Core.List.{Memᴰ}
use mathlib.Core.List.Memᴰ
use localcloud_cli.Prelude.{
  ◌≡◌, refl, sym, subst, ap, ◌↔◌, ◌∙◌, Bool, true, false, List, [], ◌∷◌, Option, none, some, ◌⊎◌,
  inl, inr, All, Bool-cases, ok,
}
use localcloud_cli.Text.{Text, codes, elem}
use localcloud_cli.Text.Laws.{==_iff, ==_refl, elem-Memᴰ, Memᴰ-elem}
use localcloud_cli.Value.{
  Value, null, bool, int, float, str, other, list, dict, Values, elements, Entries, items, get,
}
use localcloud_cli.Value.Equal.{equal}
use localcloud_cli.Config.Fields.{auto}
use localcloud_cli.Config.Catalog.{
  Catalog, is_true, holds_text, depends_on, default_services, any_docker, enabled_services,
  resolve_docker_socket,
}
use localcloud_cli.Config.Catalog.Docker.Dependencies.{
  IsListed, dependencies, AreListed, IsDependent, IsFound, depends_on-IsFound,
}

-- A service that is selected; or, without a selection, one whose definition has `defaultEnabled`.
abbrev pub IsEnabled : Option (List Text) → Catalog → Text → Type 0
IsEnabled (some services) catalog id = Memᴰ id services
IsEnabled none catalog id =
    (d : Entries) × Memᴰ {A = Text × Entries} (id, d) catalog
    × (get (codes "defaultEnabled") (items d) ≡ some (bool true))

-- Some service of the catalog is enabled and depends on Docker.
abbrev pub IsNeeded : Option (List Text) → Catalog → Type 0
IsNeeded services catalog =
    (e : Text × Entries) × Memᴰ e catalog
    × IsEnabled services catalog e.0
    × IsDependent (dependencies e.1)

-- The search over a part of the catalog.
abbrev IsSearched : List Text → Catalog → Type 0
IsSearched enabled catalog =
    (b : Bool) × (any_docker enabled catalog ≡ ok b)
    × ((b ≡ true) ↔ (
        (e : Text × Entries) × Memᴰ e catalog
        × (elem e.0 enabled ≡ true)
        × IsDependent (dependencies e.1)))

module _ (enabled : List Text) (id : Text) (definition : Entries) (catalog : Catalog) where
  -- A definition that is passed over.
  passed :
      any_docker enabled ((id, definition) ∷ catalog) ≡ any_docker enabled catalog
      → ¬ ((elem id enabled ≡ true) × IsDependent (dependencies definition))
      → IsSearched enabled catalog
      → IsSearched enabled ((id, definition) ∷ catalog)
  passed same not_this (b, found, (to, from)) = (
    b,
    same ∙ found,
    (
      λ h. let (e, m, on, dep) = to h in (e, Memᴰ.tail m, on, dep),
      λ (e, m, on, dep). elim (Memᴰ.cases_cons m) [
        | inl is ↦ absurd (
            not_this (
              subst
                (λ (x : Text × Entries). (elem x.0 enabled ≡ true) × IsDependent (dependencies x.1))
                is (on, dep)))
        | inr later ↦ from (e, later, on, dep)
      ],
    ),
  )

  tested :
      (d : Bool)
      → elem id enabled ≡ true
      → depends_on (codes "docker") (dependencies definition) ≡ ok d
      → ((d ≡ true) ↔ IsDependent (dependencies definition))
      → IsSearched enabled catalog
      → IsSearched enabled ((id, definition) ∷ catalog)
  unfolding any_docker
  tested true on dep (to, from) rest =
      (true, rw (on, dep) refl, (λ h. ((id, definition), Memᴰ.head refl, on, to refl), λ e. refl))
  tested false on dep (to, from) rest =
      passed (rw (on, dep) refl) (λ (e, is). (let impossible = from is in cc)) rest

  switched_off :
      elem id enabled ≡ false
      → IsSearched enabled catalog
      → IsSearched enabled ((id, definition) ∷ catalog)
  unfolding any_docker
  switched_off off rest = passed (rw off refl) (λ (on, is). cc) rest

any_docker-IsSearched :
    (enabled : List Text) (catalog : Catalog) → AreListed catalog → IsSearched enabled catalog
unfolding any_docker
any_docker-IsSearched enabled [] h =
    (false, refl, (λ e. cc, λ (e, m, on, dep). absurd (Memᴰ.not-nil m)))
any_docker-IsSearched enabled ((id, definition) ∷ catalog) (listed, h) =
    elim (Bool-cases (elem id enabled)) [
      | inl on ↦
          let (d, dep, is) = depends_on-IsFound (dependencies definition) listed in
          tested enabled id definition catalog d on dep is (any_docker-IsSearched enabled catalog h)
      | inr off ↦
          switched_off enabled id definition catalog off (any_docker-IsSearched enabled catalog h)
    ]

is_true-same : (o : Option Value) → is_true o ≡ true → o ≡ some (bool true)
is_true-same none h = cc
is_true-same (some (bool true)) h = refl
is_true-same (some (bool false)) h = cc
is_true-same (some null) h = cc
is_true-same (some (int n)) h = cc
is_true-same (some (float t n)) h = cc
is_true-same (some (str t)) h = cc
is_true-same (some (other t)) h = cc
is_true-same (some (list vs)) h = cc
is_true-same (some (dict es)) h = cc

-- The services of the catalog that are on without a selection.
default_services-to :
    (catalog : Catalog) (id : Text) → Memᴰ id (default_services catalog) → IsEnabled none catalog id
unfolding default_services
default_services-to [] id m = absurd (Memᴰ.not-nil m)
default_services-to ((i, d) ∷ catalog) id m =
    elim (Bool-cases (is_true (get (codes "defaultEnabled") (items d)))) [
      | inl on ↦ elim (Memᴰ.cases_cons (rw on at m)) [
        | inl is ↦ (d, Memᴰ.head (ap (λ x. (x, d)) is), is_true-same _ on)
        | inr later ↦
            let (e, there, h) = default_services-to catalog id later in (e, Memᴰ.tail there, h)
      ]
      | inr off ↦
          let (e, there, h) = default_services-to catalog id (rw off at m) in
          (e, Memᴰ.tail there, h)
    ]

default_services-from :
    (catalog : Catalog) (id : Text) → IsEnabled none catalog id → Memᴰ id (default_services catalog)
unfolding default_services
default_services-from [] id (d, m, h) = absurd (Memᴰ.not-nil m)
default_services-from ((i, e) ∷ catalog) id (d, m, h) = elim (Memᴰ.cases_cons m) [
  | inl is ↦
      let on : is_true (get (codes "defaultEnabled") (items e)) ≡ true =
        subst (λ (x : Text × Entries). is_true (get (codes "defaultEnabled") (items x.1)) ≡ true) is
          (rw h refl) in
      rw on (Memᴰ.head (ap (λ x. x.0) is))
  | inr later ↦
      let there = default_services-from catalog id (d, later, h) in
      elim (Bool-cases (is_true (get (codes "defaultEnabled") (items e)))) [
        | inl on ↦ rw on (Memᴰ.tail there)
        | inr off ↦ rw off there
      ]
]

enabled_services-IsEnabled :
    (services : Option (List Text)) (catalog : Catalog) (id : Text)
    → (elem id (enabled_services services catalog) ≡ true) ↔ IsEnabled services catalog id
unfolding enabled_services
enabled_services-IsEnabled none catalog id = (
  λ h. default_services-to catalog id (Memᴰ-elem id _ h),
  λ is. elem-Memᴰ id _ (default_services-from catalog id is),
)
enabled_services-IsEnabled (some services) catalog id =
    (λ h. Memᴰ-elem id services h, λ m. elem-Memᴰ id services m)

-- Where the dependencies of every service are a list or are not given: the automatic mode returns,
-- and it mounts the socket exactly if some service of the catalog has "docker" in its list and is
-- selected or, without a selection, has `defaultEnabled` true.
pub resolve_docker_socket-IsNeeded :
    (services : Option (List Text)) (catalog : Catalog)
    → AreListed catalog
    → (b : Bool) × (resolve_docker_socket auto services catalog ≡ ok b)
      × ((b ≡ true) ↔ IsNeeded services catalog)
unfolding resolve_docker_socket
resolve_docker_socket-IsNeeded services catalog listed =
    let (b, found, (to, from)) =
      any_docker-IsSearched (enabled_services services catalog) catalog listed in
    (
      b,
      found,
      (
        λ h.
            let (e, m, on, dep) = to h in
            (e, m, (enabled_services-IsEnabled services catalog e.0).0 on, dep),
        λ (e, m, on, dep). from (e, m, (enabled_services-IsEnabled services catalog e.0).1 on, dep),
      ),
    )
