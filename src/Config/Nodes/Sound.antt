-- ===== src/Config/Nodes/Sound.antt =====
-- The walk accepts the clean documents, and no others.
use mathlib.Core.List.{Memᴰ}
use mathlib.Core.List.Memᴰ
use localcloud_cli.Prelude.{
  ℕ, zero, suc, ◌≡◌, refl, sym, subst, inl, inr, true, ◌&&◌, List, [], ◌∷◌, none, some, ◌=?◌,
  =?_iff, Bool-cases, ok, raise, arith,
}
use localcloud_cli.Text.{Text}
use localcloud_cli.Config.Nodes.{
  Node, mapping, sequence, scalar, Graph, Walk, ◌>=>◌, contains, check_key, walk_pairs, walk_items,
  visit, validate_yaml_node, is_ambiguous,
}
use localcloud_cli.Config.Nodes.Clean.{pair_nodes, children, HasKeys, IsProper, IsClean, clean}

-- A chain of steps that returned has a first step that returned.
bind_ok :
    {A B : Type 0} (first : Walk A) (next : A → Walk B) (b : B)
    → (first >=> next) ≡ some (ok b)
    → (a : A) × (first ≡ some (ok a)) × (next a ≡ some (ok b))
bind_ok none next b h = cc
bind_ok (some (raise e)) next b h = cc
bind_ok (some (ok a)) next b h = (a, refl, h)

ok-same : {A : Type 0} (a b : A) → some (ok a) ≡ some (ok b) → a ≡ b
ok-same a b h = cc

some-same : {A : Type 0} (a b : A) → some a ≡ some b → a ≡ b
some-same a b h = cc

pub contains-Memᴰ : (id : ℕ) (ids : List ℕ) → contains id ids ≡ true → Memᴰ id ids
unfolding contains
contains-Memᴰ id [] h = cc
contains-Memᴰ id (other ∷ more) h = elim (Bool-cases (id =? other)) [
  | inl same ↦ Memᴰ.head ((=?_iff id other).0 same)
  | inr different ↦ Memᴰ.tail (contains-Memᴰ id more (ground arith))
]

module _ (graph : Graph) where
  abbrev pub AllClean : List ℕ → Type 0
  AllClean ids = (c : ℕ) → Memᴰ c ids → IsClean graph c

  pub AllClean-nil : AllClean []
  AllClean-nil c m = absurd (Memᴰ.not-nil m)

  AllClean-cons : (id : ℕ) (ids : List ℕ) → IsClean graph id → AllClean ids → AllClean (id ∷ ids)
  AllClean-cons id ids h all c m = elim (Memᴰ.cases_cons m) [
    | inl same ↦ subst (IsClean graph) (sym same) h
    | inr later ↦ all c later
  ]

  -- A call on a child that returns has shown it clean, and keeps what is known.
  pub record Shows (walk : ℕ → List ℕ → Walk (List ℕ)) : Type 0 where
    pub at :
        (id : ℕ) (known more : List ℕ)
        → AllClean known
        → walk id known ≡ some (ok more)
        → IsClean graph id × AllClean more

  walk_items-AllClean :
      (walk : ℕ → List ℕ → Walk (List ℕ)) (items known more : List ℕ)
      → Shows walk
      → AllClean known
      → walk_items graph walk items known ≡ some (ok more)
      → AllClean items × AllClean more
  unfolding walk_items
  walk_items-AllClean walk [] known more shows h e =
      (AllClean-nil, subst AllClean (ok-same known more e) h)
  walk_items-AllClean walk (item ∷ items) known more shows h e =
      let (first, at_item, rest) = bind_ok (walk item known) _ more e in
      let (here, kept) = shows.at item known first h at_item in
      let (later, final) = walk_items-AllClean walk items first more shows kept rest in
      (AllClean-cons item items here later, final)

  walk_pairs-AllClean :
      (walk : ℕ → List ℕ → Walk (List ℕ)) (pairs : List (ℕ × ℕ)) (seen : List Text)
      (known more : List ℕ)
      → Shows walk
      → AllClean known
      → walk_pairs graph walk pairs seen known ≡ some (ok more)
      → HasKeys graph seen pairs × AllClean (pair_nodes pairs) × AllClean more
  unfolding walk_pairs
  walk_pairs-AllClean walk [] seen known more shows h e =
      (tt, AllClean-nil, subst AllClean (ok-same known more e) h)
  walk_pairs-AllClean walk ((key, value) ∷ pairs) seen known more shows h e =
      let (name, checked, e1) = bind_ok (some (check_key seen (graph key))) _ more e in
      let (first, at_key, e2) = bind_ok (walk key known) _ more e1 in
      let (second, at_value, e3) = bind_ok (walk value first) _ more e2 in
      let (k, kept) = shows.at key known first h at_key in
      let (v, kept_on) = shows.at value first second kept at_value in
      let (keys, later, final) =
        walk_pairs-AllClean walk pairs (name ∷ seen) second more shows kept_on e3 in
      (
        (name, some-same _ _ checked, keys),
        AllClean-cons key (value ∷ pair_nodes pairs) k
            (AllClean-cons value (pair_nodes pairs) v later),
        final,
      )

  visit-IsClean :
      (walk : ℕ → List ℕ → Walk (List ℕ)) (node : Node) (known more : List ℕ)
      → Shows walk
      → AllClean known
      → visit graph walk node known ≡ some (ok more)
      → IsProper graph node × AllClean (children node) × AllClean more
  unfolding visit
  visit-IsClean walk (mapping pairs) known more shows h e =
      walk_pairs-AllClean walk pairs [] known more shows h e
  visit-IsClean walk (sequence items) known more shows h e =
      let (below, kept) = walk_items-AllClean walk items known more shows h e in (tt, below, kept)
  visit-IsClean walk (scalar tag value plain) known more shows h e =
      elim (Bool-cases (plain && is_ambiguous value)) [
        | inl refused ↦ (let e2 = rw (refused, visit) at e in cc)
        | inr accepted ↦ (
          accepted,
          AllClean-nil,
          subst AllClean (ok-same known more (rw (accepted, visit) at e)) h,
        )
      ]

  step-AllClean :
      (walk : ℕ → List ℕ → Walk (List ℕ)) (id : ℕ) (known more : List ℕ)
      → Shows walk
      → AllClean known
      → (visit graph walk (graph id) known >=> λ seen. some (ok (id ∷ seen))) ≡ some (ok more)
      → IsClean graph id × AllClean more
  step-AllClean walk id known more shows h e =
      let (seen, visited, added) = bind_ok (visit graph walk (graph id) known) _ more e in
      let (proper, below, kept) = visit-IsClean walk (graph id) known seen shows h visited in
      let node = clean proper below in
      (node, subst AllClean (ok-same (id ∷ seen) more added) (AllClean-cons id seen node kept))

  pub walk-Shows : (fuel : ℕ) (active : List ℕ) → Shows (validate_yaml_node graph fuel active)
  unfolding validate_yaml_node
  walk-Shows zero active = record { at = λ id known more h e. cc }
  walk-Shows (suc fuel) active = record {
    at = λ id known more h e. elim (Bool-cases (contains id active)) [
      | inl cycle ↦ (let e2 = rw (cycle, validate_yaml_node) at e in cc)
      | inr fresh ↦ elim (Bool-cases (contains id known)) [
        | inl old ↦ (
          h id (contains-Memᴰ id known old),
          subst AllClean (ok-same known more (rw (fresh, old, validate_yaml_node) at e)) h,
        )
        | inr new ↦
            step-AllClean (validate_yaml_node graph fuel (id ∷ active)) id known more
              (walk-Shows fuel (id ∷ active)) h (rw (fresh, new, validate_yaml_node) at e)
      ]
    ];
  }
