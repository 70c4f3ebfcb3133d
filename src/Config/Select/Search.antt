-- ===== src/Config/Select/Search.antt =====
-- The file that the search for a configuration ends with.
use localcloud_cli.Prelude.{
  ◌≡◌, refl, Option, none, some, Result, ok, Returns, Returns-ok, Returns-raise, Returns-if,
  Returns-bind, ◌∙◌, host_error, config_missing,
}
use localcloud_cli.Text.{Text}
use localcloud_cli.Config.Fields.{invalid}
use localcloud_cli.Config.Select.{
  Kind, absent, file, directory, Files, ConfigSource, explicit, environment, local, remembered,
  home, found_path, required_config_path, Selected, from_source, home_config, remembered_config,
  local_config, environment_config, select_config_path,
}

module _ (fs : Files) where
  -- No file was found, or the path of one.
  abbrev pub IsFound : Selected → Type 0
  IsFound none = Unit {0}
  IsFound (some (path, source)) = fs.kind path ≡ file

  found_path-file :
      (k : Kind) (path : Text)
      → fs.kind path ≡ k
      → Returns (λ p. fs.kind p ≡ file) (found_path k path)
  found_path-file absent path h = Returns-raise (host_error config_missing)
  found_path-file file path h = Returns-ok path h
  found_path-file directory path h = Returns-raise invalid

  from_source-IsFound :
      (path base : Text) (source : ConfigSource)
      → Returns IsFound (from_source (required_config_path fs path base) source)
  unfolding required_config_path
  from_source-IsFound path base source =
      Returns-bind {P = λ p. fs.kind p ≡ file} (required_config_path fs path base) _
        (found_path-file (fs.kind (fs.resolve (fs.absolute base path)))
          (fs.resolve (fs.absolute base path)) refl)
        λ p h. Returns-ok (some (p, source)) h

  module _ (resolve-kind : (path : Text) → fs.kind (fs.resolve path) ≡ fs.kind path) where
    home_config-IsFound :
        (k : Kind) (path : Text) → fs.kind path ≡ k → Returns IsFound (home_config fs k path)
    home_config-IsFound absent path h = Returns-ok none tt
    home_config-IsFound file path h =
        Returns-ok (some (fs.resolve path, home)) (resolve-kind path ∙ h)
    home_config-IsFound directory path h = Returns-raise invalid

    remembered_config-IsFound :
        (base : Text) (path : Option Text) (home_path : Text)
        → Returns IsFound (remembered_config fs base path home_path)
    remembered_config-IsFound base none home_path =
        home_config-IsFound (fs.kind home_path) home_path refl
    remembered_config-IsFound base (some path) home_path =
        Returns-if _ _ _ (λ h. home_config-IsFound (fs.kind home_path) home_path refl)
          λ h. from_source-IsFound path base remembered

    local_config-IsFound :
        (base : Text) (k : Kind) (path : Text) (old : Option Text) (home_path : Text)
        → fs.kind path ≡ k
        → Returns IsFound (local_config fs base k path old home_path)
    local_config-IsFound base absent path old home_path h =
        remembered_config-IsFound base old home_path
    local_config-IsFound base file path old home_path h =
        Returns-ok (some (fs.resolve path, local)) (resolve-kind path ∙ h)
    local_config-IsFound base directory path old home_path h = Returns-raise invalid

    environment_config-IsFound :
        (base : Text) (variable : Option Text) (otherwise : Result Selected)
        → Returns IsFound otherwise
        → Returns IsFound (environment_config fs base variable otherwise)
    environment_config-IsFound base none otherwise h = h
    environment_config-IsFound base (some path) otherwise h =
        Returns-if _ _ _ (λ k. h) λ k. from_source-IsFound path base environment

    select_config_path-Returns :
        (base local_path : Text) (argument variable old : Option Text) (home_path : Text)
        → Returns IsFound (select_config_path fs base local_path argument variable old home_path)
    unfolding select_config_path
    select_config_path-Returns base local_path (some path) variable old home_path =
        from_source-IsFound path base explicit
    select_config_path-Returns base local_path none variable old home_path =
        environment_config-IsFound base variable _
          (local_config-IsFound base (fs.kind local_path) local_path old home_path refl)

    -- Where the search for the configuration file returns a path, a file stands there, provided that
    -- a resolved path leads to what the path leads to.
    pub select_config_path-IsFound :
        (base local_path : Text) (argument variable old : Option Text) (home_path : Text)
        (selected : Selected)
        → select_config_path fs base local_path argument variable old home_path ≡ ok selected
        → IsFound selected
    select_config_path-IsFound base local_path argument variable old home_path =
        (select_config_path-Returns base local_path argument variable old home_path).at
