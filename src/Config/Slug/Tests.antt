-- ===== src/Config/Slug/Tests.antt =====
-- Project names made of concrete names.
use localcloud_cli.Prelude.{◌≡◌, refl, true, some, all, any}
use localcloud_cli.Text.{Text, codes, strip, lower, lower_char, is_space, starts_with}
use localcloud_cli.Config.Fields.{is_slug_char, project_id_pattern}
use localcloud_cli.Config.Slug.{slugify_project_name}
use localcloud_cli.Config.Slug.Valid.{slugify_project_name-valid}

-- What a run of the module computes through.
runs : Unit {0}
unfolding codes strip lower lower_char is_space starts_with all any project_id_pattern
    slugify_project_name
runs = tt

-- The ASCII form of a text that is ASCII.
abbrev same_text : Text → Text
same_text t = t

api_project : slugify_project_name same_text (codes "__API__") ≡ some (codes "proj-api")
unfolding runs
api_project = refl

api_letters : any is_slug_char (lower (strip (codes "__API__"))) ≡ true
unfolding runs
api_letters = refl

slugify_project_name-valid_example :
    (p : Text) × (slugify_project_name same_text (codes "__API__") ≡ some p)
    × (project_id_pattern p ≡ true)
unfolding codes
slugify_project_name-valid_example =
    slugify_project_name-valid same_text (codes "__API__") refl api_letters
