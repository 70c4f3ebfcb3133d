-- ===== src/Config/Nodes/Terminates.antt =====
-- The walk over a document of n nodes ends within n + 1 nested calls, aliases and cycles included.
use localcloud_cli.Prelude.{
  ℕ, zero, suc, ◌<◌, ◌≤◌, ◌≡◌, refl, ap, ◌⊎◌, inl, inr, true, false, ◌&&◌, List, [], ◌∷◌, none,
  some, All, Bool-cases, Result, ok, raise, arith,
}
use localcloud_cli.Text.{Text}
use localcloud_cli.Config.Fields.{invalid}
use localcloud_cli.Config.Nodes.{
  Node, mapping, sequence, scalar, Graph, Walk, ◌>=>◌, contains, check_key, walk_pairs, walk_items,
  visit, validate_yaml_node, is_ambiguous,
}

-- Every identity that a node names is that of a node of the document.
abbrev pub IsWithin : ℕ → Node → Type 0
IsWithin size (mapping pairs) = All (λ (p : ℕ × ℕ). (p.0 < size) × (p.1 < size)) pairs
IsWithin size (sequence children) = All (λ c. c < size) children
IsWithin size (scalar tag value plain) = Unit

abbrev pub IsClosed : ℕ → Graph → Type 0
IsClosed size graph = (id : ℕ) → id < size → IsWithin size (graph id)

-- How many identities below n are not active.
unfoldable idle : ℕ → List ℕ → ℕ
idle zero active = zero
idle (suc n) active = elim (contains n active) [
  | true ↦ idle n active
  | false ↦ suc (idle n active)
]

lt-or-eq : (a b : ℕ) → a < suc b → (a ≡ b) ⊎ (a < b)
lt-or-eq a b h = ground arith

idle-above : (n id : ℕ) (active : List ℕ) → n ≤ id → idle n (id ∷ active) ≡ idle n active
unfolding idle contains
idle-above zero id active h = refl
idle-above (suc n) id active h = ground (arith, idle-above n id active)

idle-cons :
    (n id : ℕ) (active : List ℕ)
    → id < n
    → contains id active ≡ false
    → idle n active ≡ suc (idle n (id ∷ active))
unfolding idle contains
idle-cons zero id active h k = omega arith
idle-cons (suc n) id active h k = elim (lt-or-eq id n h) [
  | inl last ↦ ground (arith, idle-above n id active, last, k)
  | inr before ↦ ground (arith, idle-cons n id active before k)
]

idle-spent :
    (n id fuel : ℕ) (active : List ℕ)
    → id < n
    → contains id active ≡ false
    → idle n active < suc fuel
    → idle n (id ∷ active) < fuel
idle-spent n id fuel active h k enough = omega (arith, idle-cons n id active h k)

module _ (graph : Graph) (size : ℕ) (closed : IsClosed size graph) where
  abbrev IsDone : {A : Type 0} → Walk A → Type 0
  IsDone {A} walk = (r : Result A) × (walk ≡ some r)

  IsDone-bind :
      {A B : Type 0} (first : Walk A) (next : A → Walk B)
      → IsDone first
      → ((a : A) → IsDone (next a))
      → IsDone (first >=> next)
  IsDone-bind (some (raise e)) next h k = (raise e, refl)
  IsDone-bind (some (ok a)) next h k = k a
  IsDone-bind none next (r, e) k = cc

  -- A call on any child ends.
  abbrev Ends : (ℕ → List ℕ → Walk (List ℕ)) → Type 0
  Ends walk = (id : ℕ) (validated : List ℕ) → id < size → IsDone (walk id validated)

  walk_pairs-IsDone :
      (walk : ℕ → List ℕ → Walk (List ℕ)) (pairs : List (ℕ × ℕ)) (seen : List Text)
      (validated : List ℕ)
      → Ends walk
      → All (λ (p : ℕ × ℕ). (p.0 < size) × (p.1 < size)) pairs
      → IsDone (walk_pairs graph walk pairs seen validated)
  unfolding walk_pairs
  walk_pairs-IsDone walk [] seen validated ends h = (ok validated, refl)
  walk_pairs-IsDone walk ((key, value) ∷ more) seen validated ends ((k, v), h) =
      IsDone-bind (some (check_key seen (graph key))) _ (check_key seen (graph key), refl)
        λ name. IsDone-bind (walk key validated) _ (ends key validated k) λ first.
          IsDone-bind (walk value first) _ (ends value first v)
            λ second. walk_pairs-IsDone walk more (name ∷ seen) second ends h

  walk_items-IsDone :
      (walk : ℕ → List ℕ → Walk (List ℕ)) (children : List ℕ) (validated : List ℕ)
      → Ends walk
      → All (λ c. c < size) children
      → IsDone (walk_items graph walk children validated)
  unfolding walk_items
  walk_items-IsDone walk [] validated ends h = (ok validated, refl)
  walk_items-IsDone walk (c ∷ more) validated ends (b, h) =
      IsDone-bind (walk c validated) _ (ends c validated b)
        λ first. walk_items-IsDone walk more first ends h

  visit-IsDone :
      (walk : ℕ → List ℕ → Walk (List ℕ)) (node : Node) (validated : List ℕ)
      → Ends walk
      → IsWithin size node
      → IsDone (visit graph walk node validated)
  unfolding visit
  visit-IsDone walk (mapping pairs) validated ends h =
      walk_pairs-IsDone walk pairs [] validated ends h
  visit-IsDone walk (sequence children) validated ends h =
      walk_items-IsDone walk children validated ends h
  visit-IsDone walk (scalar tag value plain) validated ends h =
      elim (Bool-cases (plain && is_ambiguous value)) [
        | inl refused ↦ rw refused (raise invalid, refl)
        | inr accepted ↦ rw accepted (ok validated, refl)
      ]

  walk-IsDone :
      (fuel : ℕ) (active : List ℕ)
      → idle size active < fuel
      → Ends (validate_yaml_node graph fuel active)
  unfolding validate_yaml_node
  walk-IsDone zero active h id validated b = ground arith
  walk-IsDone (suc fuel) active h id validated b = elim (Bool-cases (contains id active)) [
    | inl cycle ↦ rw (cycle, validate_yaml_node) (raise invalid, refl)
    | inr fresh ↦ elim (Bool-cases (contains id validated)) [
      | inl known ↦ rw (fresh, known, validate_yaml_node) (ok validated, refl)
      | inr unknown ↦
          rw (fresh, unknown, validate_yaml_node)
            (IsDone-bind
              (visit graph (validate_yaml_node graph fuel (id ∷ active)) (graph id) validated) _
              (visit-IsDone (validate_yaml_node graph fuel (id ∷ active)) (graph id) validated
                (walk-IsDone fuel (id ∷ active) (idle-spent size id fuel active b fresh h))
                (closed id b))
              λ more. (ok (id ∷ more), refl))
    ]
  ]

idle-all : (n : ℕ) → idle n [] ≡ n
unfolding idle contains
idle-all zero = refl
idle-all (suc n) = ap suc (idle-all n)

-- In a document of `size` nodes whose names all name nodes of the document, the walk from any node
-- ends with a result: `size + 1` nested calls are enough, however the aliases run.
pub validate_yaml_node_terminates :
    (size : ℕ) (graph : Graph) (root : ℕ)
    → IsClosed size graph
    → root < size
    → (r : Result (List ℕ)) × (validate_yaml_node graph (suc size) [] root [] ≡ some r)
validate_yaml_node_terminates size graph root closed h =
    walk-IsDone graph size closed (suc size) [] (omega (arith, idle-all size)) root [] h
