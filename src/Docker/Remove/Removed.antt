-- ===== src/Docker/Remove/Removed.antt =====
-- What a clean-up may take away, and that deleting one thing that it may take away keeps within it.
use mathlib.Core.List.{Memᴰ}
use mathlib.Core.List.Memᴰ
use localcloud_cli.Prelude.{
  ◌≡◌, refl, sym, subst, ap, ◌∙◌, ◌⊎◌, inl, inr, Bool, true, false, not, Bool-cases, List, [], ◌∷◌,
  Option, none, some, keep_if, all, and-eq-true, ok, ok-injective,
}
use localcloud_cli.Text.{Text, ◌==◌}
use localcloud_cli.Text.Laws.{==_iff}
use localcloud_cli.Dict
use localcloud_cli.Docker.Labels.{Labels, matches, is_text}
use localcloud_cli.Docker.Store.{Resource, Faults, named_resource, get_optional}

some-same : {A : Type 0} (a b : A) → some a ≡ some b → a ≡ b
some-same a b h = cc

true-apart : (b : Bool) → b ≡ true → b ≡ false → ⊥
true-apart b h k = cc

module _ {A : Type 0} (p : A → Bool) where
  pub keep_if-Memᴰ : (x : A) (xs : List A) → Memᴰ x xs → p x ≡ true → Memᴰ x (keep_if p xs)
  unfolding keep_if
  keep_if-Memᴰ x [] m h = absurd (Memᴰ.not-nil m)
  keep_if-Memᴰ x (y ∷ ys) m h = elim (Bool-cases (p y)) [
    | inl fits ↦
        rw (fits, keep_if)
          (elim (Memᴰ.cases_cons m) [
            | inl same ↦ Memᴰ.head same
            | inr later ↦ Memᴰ.tail (keep_if-Memᴰ x ys later h)
          ])
    | inr fails ↦
        rw (fails, keep_if)
          (elim (Memᴰ.cases_cons m) [
            | inl same ↦ absurd (true-apart (p y) (subst (λ z. p z ≡ true) same h) fails)
            | inr later ↦ keep_if-Memᴰ x ys later h
          ])
  ]

  pub Memᴰ-keep_if : (x : A) (xs : List A) → Memᴰ x (keep_if p xs) → Memᴰ x xs × (p x ≡ true)
  unfolding keep_if
  Memᴰ-keep_if x [] m = absurd (Memᴰ.not-nil m)
  Memᴰ-keep_if x (y ∷ ys) m = elim (Bool-cases (p y)) [
    | inl fits ↦
        let n = rw (fits, keep_if) at m in
        elim (Memᴰ.cases_cons n) [
          | inl same ↦ (Memᴰ.head same, subst (λ z. p z ≡ true) (sym same) fits)
          | inr later ↦ let (there, h) = Memᴰ-keep_if x ys later in (Memᴰ.tail there, h)
        ]
    | inr fails ↦
        let (there, h) = Memᴰ-keep_if x ys (rw (fails, keep_if) at m) in (Memᴰ.tail there, h)
  ]

module _ {A : Type 0} (id : A → Text) (IsOwn : A → Type 0) (base : List A) where
  -- What is there was there before; and what was there is still there, or has the identity of
  -- something that could be taken away.
  pub record IsCleaned (xs : List A) : Type 0 where
    pub was : (x : A) → Memᴰ x xs → Memᴰ x base
    pub kept : (x : A) → Memᴰ x base → Memᴰ x xs ⊎ ((y : A) × Memᴰ y base × (id y ≡ id x) × IsOwn y)

  pub base-IsCleaned : IsCleaned base
  base-IsCleaned = record { was = λ x m. m; kept = λ x m. inl m }

  -- A filter that takes away only what it may.
  pub keep_if-IsCleaned :
      (p : A → Bool) (xs : List A)
      → ((x : A) → Memᴰ x base → p x ≡ false → IsOwn x)
      → IsCleaned xs
      → IsCleaned (keep_if p xs)
  keep_if-IsCleaned p xs own h = record {
    was = λ x m. h.was x (Memᴰ-keep_if p x xs m).0;
    kept = λ x m. elim (h.kept x m) [
      | inl here ↦ elim (Bool-cases (p x)) [
        | inl stays ↦ inl (keep_if-Memᴰ p x xs here stays)
        | inr goes ↦ inr (x, m, refl, own x m goes)
      ]
      | inr gone ↦ inr gone
    ];
  }

  pub delete-IsCleaned :
      (y : A) (xs : List A)
      → Memᴰ y base
      → IsOwn y
      → IsCleaned xs
      → IsCleaned (keep_if (λ c. not (id c == id y)) xs)
  delete-IsCleaned y xs there own h = record {
    was = λ x m. h.was x (Memᴰ-keep_if (λ c. not (id c == id y)) x xs m).0;
    kept = λ x m. elim (h.kept x m) [
      | inl here ↦ elim (Bool-cases (id x == id y)) [
        | inl same ↦ inr (y, there, sym ((==_iff (id x) (id y)).0 same), own)
        | inr other ↦ inl (keep_if-Memᴰ (λ c. not (id c == id y)) x xs here (ap not other))
      ]
      | inr gone ↦ inr gone
    ];
  }

pub named_resource-Memᴰ :
    (name : Text) (rs : List Resource) (r : Resource)
    → named_resource name rs ≡ some r
    → Memᴰ r rs × (r.name ≡ name)
unfolding named_resource
named_resource-Memᴰ name [] r h = cc
named_resource-Memᴰ name (s ∷ rs) r h = elim (Bool-cases (s.name == name)) [
  | inl fits ↦
      let same = some-same s r (rw (fits, named_resource) at h) in
      (Memᴰ.head (sym same), ap (λ (x : Resource). x.name) (sym same) ∙ (==_iff s.name name).0 fits)
  | inr fails ↦
      let (there, called) = named_resource-Memᴰ name rs r (rw (fails, named_resource) at h) in
      (Memᴰ.tail there, called)
]

pub is_text-same : (t : Text) (o : Option Text) → is_text t o ≡ true → o ≡ some t
is_text-same t none h = cc
is_text-same t (some s) h = ap some ((==_iff s t).0 h)

-- Labels that match the expected ones have them.
pub matches-get :
    (actual expected : Labels) (k v : Text)
    → matches actual expected ≡ true
    → Memᴰ (k, v) expected
    → Dict.get k actual ≡ some v
unfolding matches all
matches-get actual [] k v h m = absurd (Memᴰ.not-nil m)
matches-get actual ((j, w) ∷ expected) k v h m =
    let (here, rest) = and-eq-true _ _ h in
    elim (Memᴰ.cases_cons m) [
      | inl same ↦
          subst (λ (e : Text × Text). Dict.get e.0 actual ≡ some e.1) (sym same)
            (is_text-same w (Dict.get j actual) here)
      | inr later ↦ matches-get actual expected k v rest later
    ]

pub get_optional-ok :
    {A : Type 0} (f : Faults) (name : Text) (o r : Option A) → get_optional f name o ≡ ok r → o ≡ r
unfolding get_optional
get_optional-ok f name o r h = elim (Bool-cases (f.inspect name)) [
  | inl failed ↦ (let e = rw (failed, get_optional) at h in cc)
  | inr fine ↦ ok-injective o r (rw (fine, get_optional) at h)
]
