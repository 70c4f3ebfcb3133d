-- ===== src/Config/Nodes/Clean.antt =====
-- What a document must be for the walk over its nodes to accept it.
use localcloud_cli.Prelude.{ℕ, ◌≡◌, false, ◌&&◌, List, [], ◌∷◌, ok}
use mathlib.Core.List.{Memᴰ}
use localcloud_cli.Text.{Text}
use localcloud_cli.Config.Nodes.{Node, mapping, sequence, scalar, Graph, is_ambiguous, check_key}

-- The children of a node, keys included, in the order of the document.
abbrev pub pair_nodes : List (ℕ × ℕ) → List ℕ
pair_nodes [] = []
pair_nodes ((key, value) ∷ more) = key ∷ value ∷ pair_nodes more

abbrev pub children : Node → List ℕ
children (mapping pairs) = pair_nodes pairs
children (sequence items) = items
children (scalar tag value plain) = []

module _ (graph : Graph) where
  -- Every key is a string, is no merge key, and differs from the keys before it.
  abbrev pub HasKeys : List Text → List (ℕ × ℕ) → Type 0
  HasKeys seen [] = Unit
  HasKeys seen ((key, value) ∷ more) =
      (name : Text) × (check_key seen (graph key) ≡ ok name) × HasKeys (name ∷ seen) more

  abbrev pub IsProper : Node → Type 0
  IsProper (mapping pairs) = HasKeys [] pairs
  IsProper (sequence items) = Unit
  IsProper (scalar tag value plain) = (plain && is_ambiguous value) ≡ false

  -- A node whose own checks hold and whose children are clean: it stands above a finite tree, so no
  -- alias leads back to it.
  pub data IsClean : ℕ → Type 0 where
    clean :
        {id : ℕ}
        → IsProper (graph id)
        → ((c : ℕ) → Memᴰ c (children (graph id)) → IsClean c)
        → IsClean id

  -- A walk down from one node to another, of one step or more.
  pub data Above : ℕ → ℕ → Type 0 where
    parent : {id c : ℕ} → Memᴰ c (children (graph id)) → Above id c
    ancestor : {id c d : ℕ} → Memᴰ c (children (graph id)) → Above c d → Above id d

  pub Above-child : {a b c : ℕ} → Above a b → Memᴰ c (children (graph b)) → Above a c
  Above-child (parent m) n = ancestor m (parent n)
  Above-child (ancestor m rest) n = ancestor m (Above-child rest n)

  -- A clean node is not below itself.
  pub IsClean-acyclic : {id : ℕ} → IsClean id → ¬ Above id id
  IsClean-acyclic (clean proper below) (parent m) = IsClean-acyclic (below _ m) (parent m)
  IsClean-acyclic (clean proper below) (ancestor m rest) =
      IsClean-acyclic (below _ m) (Above-child rest m)
