-- ===== src/Config/Nodes/Tests.antt =====
-- The walk over the nodes of concrete documents: one with an alias, and one with a cycle.
use localcloud_cli.Prelude.{
  ℕ, zero, suc, ◌≡◌, refl, ◌↔◌, true, List, [], ◌∷◌, some, none, ok, raise, arith,
}
use localcloud_cli.Text.{codes, ◌==◌, elem, lower, lower_char}
use localcloud_cli.Config.Fields.{invalid}
use localcloud_cli.Config.Nodes.{
  mapping, sequence, scalar, Graph, string_tag, contains, is_ambiguous, check_key, walk_pairs,
  walk_items, visit, validate_yaml_node, read_source, read_config, composed,
}
use localcloud_cli.Config.Nodes.Terminates.{IsClosed, validate_yaml_node_terminates}
use localcloud_cli.Config.Nodes.Clean.{IsClean}
use localcloud_cli.Config.Nodes.Complete.{validate_yaml_node-IsClean}

-- What a run of the module computes through.
runs : Unit {0}
unfolding codes ◌==◌ elem lower lower_char contains is_ambiguous check_key walk_pairs walk_items
    visit validate_yaml_node read_source read_config
runs = tt

-- `{host: &a [x], tls: *a}`
abbrev document : Graph
document zero = mapping ((1, 2) ∷ (3, 2) ∷ [])
document (suc zero) = scalar string_tag (codes "host") true
document (suc (suc zero)) = sequence (4 ∷ [])
document (suc (suc (suc zero))) = scalar string_tag (codes "tls") true
document (suc (suc (suc (suc n)))) = scalar string_tag (codes "x") true

document-IsClosed : IsClosed 5 document
document-IsClosed zero h = ((omega arith, omega arith), ((omega arith, omega arith), tt))
document-IsClosed (suc zero) h = tt
document-IsClosed (suc (suc zero)) h = (omega arith, tt)
document-IsClosed (suc (suc (suc zero))) h = tt
document-IsClosed (suc (suc (suc (suc n)))) h = tt

walked : validate_yaml_node document 6 [] 0 [] ≡ some (ok (0 ∷ 3 ∷ 2 ∷ 4 ∷ 1 ∷ []))
unfolding runs
walked = refl

-- `&a [*a]`
cyclic : validate_yaml_node (λ n. sequence (0 ∷ [])) 2 [] 0 [] ≡ some (raise invalid)
unfolding runs
cyclic = refl

ambiguous :
    read_source (composed 1 (λ n. scalar string_tag (codes "Yes") true) 0 none) ≡ raise invalid
unfolding runs
ambiguous = refl

validate_yaml_node_terminates_example : (r : _) × (validate_yaml_node document 6 [] 0 [] ≡ some r)
validate_yaml_node_terminates_example =
    validate_yaml_node_terminates 5 document 0 document-IsClosed (omega arith)

validate_yaml_node-IsClean_example :
    ((v : List ℕ) × (validate_yaml_node document 6 [] 0 [] ≡ some (ok v))) ↔ IsClean document 0
validate_yaml_node-IsClean_example =
    validate_yaml_node-IsClean 5 document 0 document-IsClosed (omega arith)
