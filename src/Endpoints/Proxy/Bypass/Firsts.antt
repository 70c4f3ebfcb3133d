-- ===== src/Endpoints/Proxy/Bypass/Firsts.antt =====
-- Additions to a list that has each text once.
use localcloud_cli.Prelude.{
  ◌≡◌, refl, sym, ap, ◌∙◌, Bool, true, false, not, ◌&&◌, ◌||◌, List, [], ◌∷◌, ◌++◌, arith,
  Bool-cases, inl, inr, keep_if,
}
use localcloud_cli.Text.{Text, ◌==◌, elem}
use localcloud_cli.Text.Laws.{==_iff}
use localcloud_cli.Endpoints.Proxy.{add_host, add_hosts}

-- Each text once, where it stands first.
unfoldable pub firsts : List Text → List Text
unfolding keep_if
firsts [] = []
firsts (t ∷ ts) = t ∷ keep_if (λ u. not (u == t)) (firsts ts)

pub add_hosts-append :
    (entries xs ys : List Text) → add_hosts (add_hosts entries xs) ys ≡ add_hosts entries (xs ++ ys)
unfolding add_hosts
add_hosts-append entries [] ys = refl
add_hosts-append entries (x ∷ xs) ys = add_hosts-append (add_host entries x) xs ys

elem-append : (t : Text) (xs ys : List Text) → elem t (xs ++ ys) ≡ (elem t xs || elem t ys)
unfolding elem
elem-append t [] ys = refl
elem-append t (x ∷ xs) ys = ground (arith, elem-append t xs ys)

append_assoc : (xs ys zs : List Text) → (xs ++ ys) ++ zs ≡ xs ++ (ys ++ zs)
append_assoc [] ys zs = refl
append_assoc (x ∷ xs) ys zs = rw (append_assoc xs ys zs) refl

append_nil : (xs : List Text) → xs ++ [] ≡ xs
append_nil [] = refl
append_nil (x ∷ xs) = rw (append_nil xs) refl

-- Two filters are one.
keep_if-twice :
    (p q r : Text → Bool) (ts : List Text)
    → ((t : Text) → r t ≡ (q t && p t))
    → keep_if p (keep_if q ts) ≡ keep_if r ts
unfolding keep_if
keep_if-twice p q r [] h = refl
keep_if-twice p q r (t ∷ ts) h = elim (Bool-cases (q t)) [
  | inl first ↦ elim (Bool-cases (p t)) [
    | inl second ↦
        let both_hold : r t ≡ true = h t ∙ rw (first, second) refl in
        rw (first, both_hold, keep_if, second) (ap (λ us. t ∷ us) (keep_if-twice p q r ts h))
    | inr dropped ↦
        let fails : r t ≡ false = h t ∙ rw (first, dropped) refl in
        rw (first, fails, keep_if, dropped) (keep_if-twice p q r ts h)
  ]
  | inr dropped ↦
      let fails : r t ≡ false = h t ∙ rw dropped refl in
      rw (dropped, fails, keep_if) (keep_if-twice p q r ts h)
]

pub keep_if-all : (ts : List Text) → keep_if (λ t. true) ts ≡ ts
unfolding keep_if
keep_if-all [] = refl
keep_if-all (t ∷ ts) = ap (λ us. t ∷ us) (keep_if-all ts)

known-apart :
    (entries : List Text) (x t : Text)
    → elem x entries ≡ true
    → not (elem t entries) ≡ (not (t == x) && not (elem t entries))
known-apart entries x t known = elim (Bool-cases (t == x)) [
  | inl same ↦
      let e = (==_iff t x).0 same in
      let there : elem t entries ≡ true = ap (λ u. elem u entries) e ∙ known in
      rw (same, there) refl
  | inr apart ↦ rw apart refl
]

new-apart :
    (entries : List Text) (x t : Text)
    → not (elem t (entries ++ x ∷ [])) ≡ (not (t == x) && not (elem t entries))
unfolding elem
new-apart entries x t = let e = elem-append t entries (x ∷ []) in ground arith

-- The hosts that are added are the new ones, each once.
pub add_hosts-firsts :
    (entries xs : List Text)
    → add_hosts entries xs ≡ entries ++ keep_if (λ t. not (elem t entries)) (firsts xs)
unfolding add_hosts add_host firsts keep_if
add_hosts-firsts entries [] = sym (append_nil entries)
add_hosts-firsts entries (x ∷ xs) = elim (Bool-cases (elem x entries)) [
  | inl known ↦
      rw (known, keep_if)
        (add_hosts-firsts entries xs
          ∙ ap (λ ts. entries ++ ts)
              (sym (keep_if-twice _ _ _ (firsts xs) (λ t. known-apart entries x t known))))
  | inr new ↦
      rw (new, keep_if)
        (add_hosts-firsts (entries ++ x ∷ []) xs
          ∙ (append_assoc entries (x ∷ []) _
              ∙ ap (λ ts. entries ++ x ∷ ts)
                  (sym (keep_if-twice _ _ _ (firsts xs) (λ t. new-apart entries x t)))))
]

add_host-elem :
    (entries : List Text) (x t : Text) → elem t (add_host entries x) ≡ (elem t entries || t == x)
unfolding add_host elem
add_host-elem entries x t = elim (Bool-cases (elem x entries)) [
  | inl known ↦ elim (Bool-cases (t == x)) [
    | inl same ↦
        let there : elem t entries ≡ true =
          ap (λ u. elem u entries) ((==_iff t x).0 same) ∙ known in
        rw (known, same, there) refl
    | inr apart ↦ rw known (ground (arith, apart))
  ]
  | inr new ↦ rw new (let e = elem-append t entries (x ∷ []) in ground arith)
]

-- The additions hold nothing else.
pub add_hosts-elem :
    (entries xs : List Text) (t : Text)
    → elem t (add_hosts entries xs) ≡ (elem t entries || elem t xs)
unfolding add_hosts elem
add_hosts-elem entries [] t = ground arith
add_hosts-elem entries (x ∷ xs) t =
    let rest = add_hosts-elem (add_host entries x) xs t in
    let one = add_host-elem entries x t in ground arith
