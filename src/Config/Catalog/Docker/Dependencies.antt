-- ===== src/Config/Catalog/Docker/Dependencies.antt =====
-- Which services of the catalog depend on Docker.
use mathlib.Core.List.{Memᴰ}
use mathlib.Core.List.Memᴰ
use localcloud_cli.Prelude.{
  ◌≡◌, refl, sym, subst, ap, ◌↔◌, Bool, true, false, List, [], ◌∷◌, Option, none, some, ◌⊎◌, inl,
  inr, All, Bool-cases, ok,
}
use localcloud_cli.Text.{Text, codes}
use localcloud_cli.Text.Laws.{==_iff, ==_refl}
use localcloud_cli.Value.{
  Value, null, bool, int, float, str, other, list, dict, Values, elements, Entries, items, get,
}
use localcloud_cli.Value.Equal.{equal}
use localcloud_cli.Config.Catalog.{Catalog, holds_text, depends_on}

-- Dependencies that are a list, or are not given.
abbrev pub IsListed : Option Value → Type 0
IsListed o = (o ≡ none) ⊎ ((vs : Values) × (o ≡ some (list vs)))

abbrev pub dependencies : Entries → Option Value
dependencies definition = get (codes "runtimeDependencies") (items definition)

abbrev pub AreListed : Catalog → Type 0
AreListed catalog = All (λ (e : Text × Entries). IsListed (dependencies e.1)) catalog

-- "docker" is a member of the list.
abbrev pub IsDependent : Option Value → Type 0
IsDependent o = (vs : Values) × (o ≡ some (list vs)) × Memᴰ (str (codes "docker")) (elements vs)

equal-str : (t : Text) (v : Value) → equal (str t) v ≡ true → str t ≡ v
unfolding equal
equal-str t null h = cc
equal-str t (bool b) h = cc
equal-str t (int n) h = cc
equal-str t (float s n) h = cc
equal-str t (str s) h = ap str ((==_iff t s).0 h)
equal-str t (other s) h = cc
equal-str t (list vs) h = cc
equal-str t (dict es) h = cc

equal-str_refl : (t : Text) → equal (str t) (str t) ≡ true
unfolding equal
equal-str_refl t = ==_refl t

holds_text-Memᴰ : (t : Text) (vs : List Value) → (holds_text t vs ≡ true) ↔ Memᴰ (str t) vs
unfolding holds_text
holds_text-Memᴰ t [] = (λ h. cc, λ m. absurd (Memᴰ.not-nil m))
holds_text-Memᴰ t (v ∷ vs) = (
  λ h. elim (Bool-cases (equal (str t) v)) [
    | inl same ↦ Memᴰ.head (equal-str t v same)
    | inr apart ↦ Memᴰ.tail ((holds_text-Memᴰ t vs).0 (rw apart at h))
  ],
  λ m. elim (Memᴰ.cases_cons m) [
    | inl same ↦ rw (sym same, equal-str_refl t) refl
    | inr later ↦ elim (Bool-cases (equal (str t) v)) [
      | inl here ↦ rw here refl
      | inr apart ↦ rw apart ((holds_text-Memᴰ t vs).1 later)
    ]
  ],
)

-- The test of one definition returns, and finds Docker where it is a member.
abbrev pub IsFound : Option Value → Type 0
IsFound o = (b : Bool) × (depends_on (codes "docker") o ≡ ok b) × ((b ≡ true) ↔ IsDependent o)

same-list : (vs ws : Values) → some (list vs) ≡ some (list ws) → ws ≡ vs
same-list vs ws h = cc

listed-IsFound : (vs : Values) → IsFound (some (list vs))
unfolding depends_on
listed-IsFound vs =
    let (to, from) = holds_text-Memᴰ (codes "docker") (elements vs) in
    (
      holds_text (codes "docker") (elements vs),
      refl,
      (
        λ h. (vs, refl, to h),
        λ (ws, same, m).
            from (subst (λ x. Memᴰ (str (codes "docker")) (elements x)) (same-list vs ws same) m),
      ),
    )

none-IsFound : IsFound none
unfolding depends_on
none-IsFound = (false, refl, (λ h. cc, λ (vs, same, m). cc))

pub depends_on-IsFound : (o : Option Value) → IsListed o → IsFound o
depends_on-IsFound o (inl absent) = subst IsFound (sym absent) none-IsFound
depends_on-IsFound o (inr (vs, given)) = subst IsFound (sym given) (listed-IsFound vs)
