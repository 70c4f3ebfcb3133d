-- ===== src/Config/Catalog/Tests.antt =====
-- The Docker socket at concrete catalogs.
use localcloud_cli.Prelude.{◌≡◌, ◌↔◌, Bool, inl, inr, refl, true, false, [], ◌∷◌, none, some, ok}
use localcloud_cli.Text.{codes, ◌==◌, elem}
use localcloud_cli.Value.{bool, str, list, cons, nil, Entries, entry, end, named, get}
use localcloud_cli.Value.Equal.{equal}
use localcloud_cli.Config.Fields.{auto}
use localcloud_cli.Config.Catalog.{
  Catalog, resolve_docker_socket, enabled_services, effective_service_catalog,
}
use localcloud_cli.Config.Catalog.Docker.Dependencies.{AreListed}
use localcloud_cli.Config.Catalog.Docker.{IsNeeded, resolve_docker_socket-IsNeeded}

-- What a run of the module computes through.
runs : Unit {0}
unfolding codes ◌==◌ elem get equal resolve_docker_socket enabled_services effective_service_catalog
runs = tt

abbrev dataproc : Entries
dataproc =
    entry (named (codes "defaultEnabled")) (bool true)
      (entry (named (codes "runtimeDependencies")) (list (cons (str (codes "docker")) nil)) end)

abbrev packaged : Catalog
packaged =
    (codes "storage", entry (named (codes "defaultEnabled")) (bool true) end)
    ∷ (codes "dataproc", dataproc)
    ∷ []

mounted : resolve_docker_socket auto none packaged ≡ ok true
unfolding runs
mounted = refl

not_mounted : resolve_docker_socket auto (some (codes "storage" ∷ [])) packaged ≡ ok false
unfolding runs
not_mounted = refl

packaged-AreListed : AreListed packaged
unfolding runs
packaged-AreListed = (inl refl, (inr (cons (str (codes "docker")) nil, refl), tt))

resolve_docker_socket-IsNeeded_example :
    (b : Bool) × (resolve_docker_socket auto none packaged ≡ ok b)
    × ((b ≡ true) ↔ IsNeeded none packaged)
resolve_docker_socket-IsNeeded_example =
    resolve_docker_socket-IsNeeded none packaged packaged-AreListed
