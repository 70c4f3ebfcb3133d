-- ===== src/Config/Nodes/Complete.antt =====
-- The walk over the nodes refuses no clean document, so it accepts exactly the clean ones.
use mathlib.Core.List.{Memᴰ}
use mathlib.Core.List.Memᴰ
use localcloud_cli.Prelude.{
  ℕ, zero, suc, ◌<◌, ◌≡◌, refl, sym, subst, ◌≢◌, ◌↔◌, inl, inr, List, [], ◌∷◌, none, some,
  Bool-cases, Exception, Result, ok, raise,
}
use localcloud_cli.Text.{Text}
use localcloud_cli.Config.Nodes.{
  Node, mapping, sequence, scalar, Graph, Walk, ◌>=>◌, contains, walk_pairs, walk_items, visit,
  validate_yaml_node,
}
use localcloud_cli.Config.Nodes.Terminates.{IsClosed, validate_yaml_node_terminates}
use localcloud_cli.Config.Nodes.Clean.{
  pair_nodes, children, HasKeys, IsProper, IsClean, clean, Above, parent, Above-child,
  IsClean-acyclic,
}
use localcloud_cli.Config.Nodes.Sound.{contains-Memᴰ, AllClean-nil, walk-Shows}

-- Nothing is refused, whether or not the fuel is enough.
abbrev IsFine : {A : Type 0} → Walk A → Type 0
IsFine walk = (e : Exception) → walk ≢ some (raise e)

IsFine-bind :
    {A B : Type 0} (first : Walk A) (next : A → Walk B)
    → IsFine first
    → ((a : A) → IsFine (next a))
    → IsFine (first >=> next)
IsFine-bind none next h k e same = cc
IsFine-bind (some (raise x)) next h k e same = h x refl
IsFine-bind (some (ok a)) next h k e same = k a e same

IsFine-ok : {A : Type 0} (a : A) → IsFine (some (ok a))
IsFine-ok a e h = cc

module _ (graph : Graph) where
  -- The call on each of the nodes refuses nothing.
  abbrev Passes : (ℕ → List ℕ → Walk (List ℕ)) → List ℕ → Type 0
  Passes walk ids = (c : ℕ) → Memᴰ c ids → (known : List ℕ) → IsFine (walk c known)

  walk_items-IsFine :
      (walk : ℕ → List ℕ → Walk (List ℕ)) (items known : List ℕ)
      → Passes walk items
      → IsFine (walk_items graph walk items known)
  unfolding walk_items
  walk_items-IsFine walk [] known h = IsFine-ok known
  walk_items-IsFine walk (item ∷ items) known h =
      IsFine-bind (walk item known) _ (h item (Memᴰ.head refl) known)
        λ more. walk_items-IsFine walk items more λ c m. h c (Memᴰ.tail m)

  walk_pairs-IsFine :
      (walk : ℕ → List ℕ → Walk (List ℕ)) (pairs : List (ℕ × ℕ)) (seen : List Text) (known : List ℕ)
      → HasKeys graph seen pairs
      → Passes walk (pair_nodes pairs)
      → IsFine (walk_pairs graph walk pairs seen known)
  unfolding walk_pairs
  walk_pairs-IsFine walk [] seen known keys h = IsFine-ok known
  walk_pairs-IsFine walk ((key, value) ∷ pairs) seen known (name, checked, keys) h =
      rw (checked, walk_pairs)
        (IsFine-bind (walk key known) _ (h key (Memᴰ.head refl) known) λ first.
          IsFine-bind (walk value first) _ (h value (Memᴰ.tail (Memᴰ.head refl)) first) λ second.
            walk_pairs-IsFine walk pairs (name ∷ seen) second keys
              λ c m. h c (Memᴰ.tail (Memᴰ.tail m)))

  visit-IsFine :
      (walk : ℕ → List ℕ → Walk (List ℕ)) (node : Node) (known : List ℕ)
      → IsProper graph node
      → Passes walk (children node)
      → IsFine (visit graph walk node known)
  unfolding visit
  visit-IsFine walk (mapping pairs) known proper h = walk_pairs-IsFine walk pairs [] known proper h
  visit-IsFine walk (sequence items) known proper h = walk_items-IsFine walk items known h
  visit-IsFine walk (scalar tag value plain) known proper h = rw (proper, visit) (IsFine-ok known)

  -- The active nodes are above the node that is visited, and none of them can be that node.
  walk-IsFine :
      (id : ℕ)
      → IsClean graph id
      → (fuel : ℕ) (active known : List ℕ) → ((a : ℕ) → Memᴰ a active → Above graph a id)
      → IsFine (validate_yaml_node graph fuel active id known)
  unfolding validate_yaml_node
  walk-IsFine id (clean proper below) zero active known above = λ e h. cc
  walk-IsFine id (clean proper below) (suc fuel) active known above =
      elim (Bool-cases (contains id active)) [
        | inl cycle ↦
            absurd (
              IsClean-acyclic graph (clean proper below) (above id (contains-Memᴰ id active cycle)))
        | inr fresh ↦ elim (Bool-cases (contains id known)) [
          | inl old ↦ rw (fresh, old, validate_yaml_node) (IsFine-ok known)
          | inr new ↦
              rw (fresh, new, validate_yaml_node)
                (IsFine-bind
                  (visit graph (validate_yaml_node graph fuel (id ∷ active)) (graph id) known) _
                  (visit-IsFine (validate_yaml_node graph fuel (id ∷ active)) (graph id) known
                    proper
                    λ c m known'. walk-IsFine c (below c m) fuel (id ∷ active) known' λ a n.
                      elim (Memᴰ.cases_cons n) [
                        | inl same ↦ subst (λ x. Above graph x c) (sym same) (parent m)
                        | inr later ↦ Above-child graph (above a later) m
                      ])
                  λ more. IsFine-ok (id ∷ more))
        ]
      ]

accepted :
    (graph : Graph) (size root : ℕ) (r : Result (List ℕ))
    → IsClean graph root
    → validate_yaml_node graph (suc size) [] root [] ≡ some r
    → (v : List ℕ) × (validate_yaml_node graph (suc size) [] root [] ≡ some (ok v))
accepted graph size root (ok v) proper e = (v, e)
accepted graph size root (raise x) proper e =
    absurd (walk-IsFine graph root proper (suc size) [] [] (λ a m. absurd (Memᴰ.not-nil m)) x e)

-- In a document of `size` nodes, the walk from the root accepts exactly if the root is clean: every
-- mapping below it has distinct string keys and no merge key, no plain scalar below it is ambiguous,
-- and it stands above a finite tree, without a cycle of aliases.
pub validate_yaml_node-IsClean :
    (size : ℕ) (graph : Graph) (root : ℕ)
    → IsClosed size graph
    → root < size
    → ((v : List ℕ) × (validate_yaml_node graph (suc size) [] root [] ≡ some (ok v)))
      ↔ IsClean graph root
validate_yaml_node-IsClean size graph root closed h = (
  (λ (v, accepted).
      ((walk-Shows graph (suc size) []).at root [] v (AllClean-nil graph) accepted).0),
  λ proper.
      let (r, e) = validate_yaml_node_terminates size graph root closed h in
      accepted graph size root r proper e,
)
