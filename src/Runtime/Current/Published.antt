-- ===== src/Runtime/Current/Published.antt =====
-- A runtime that publishes the bindings that were asked for.
use localcloud_cli.Prelude.{
  Bool, ◌++◌, if◌then◌else◌, ◌=?◌, ℕ, ◌≡◌, refl, sym, ap, subst, true, List, [], ◌∷◌, Option, none,
  some, all, any, all_mono, arith, Bool-cases, inl, inr, map, All, =?_iff,
}
use localcloud_cli.Text.{Text, codes, ◌==◌, elem}
use localcloud_cli.Text.Laws.{==_refl, ==_iff}
use localcloud_cli.Dict
use localcloud_cli.Dict.{Dict}
use localcloud_cli.Dict.Laws.{Distinct, put-Distinct, put-All}
use localcloud_cli.Config.Settings.{LocalCloudConfig}
use localcloud_cli.Runtime.Layout.{tcp, port_key, Bindings, host_ip, bind_ports}
use localcloud_cli.Runtime.Current.{
  HostBinding, same_keys, same_bindings, binds, matches_mysql, publishes,
}

-- What `_published_ports` reads of a binding that was asked for. Without an address the daemon binds
-- every address of the host, and reports that as 0.0.0.0, and as :: too where it has IPv6.
abbrev pub reported_binding : Bool → Text → ℕ → List HostBinding
reported_binding ipv6 [] port =
    (codes "0.0.0.0", some port) ∷ (if ipv6 then (codes "::", some port) ∷ [] else [])
reported_binding ipv6 (char ∷ ip) port = (char ∷ ip, some port) ∷ []

abbrev pub all_reported : Bool → List (Text × ℕ) → List HostBinding
all_reported ipv6 [] = []
all_reported ipv6 ((ip, port) ∷ hosts) = reported_binding ipv6 ip port ++ all_reported ipv6 hosts

-- The ports of a runtime that was started with the bindings.
abbrev pub published : Bool → Bindings → Dict (List HostBinding)
published ipv6 [] = []
published ipv6 ((key, hosts) ∷ bindings) = (key, all_reported ipv6 hosts) ∷ published ipv6 bindings

keys : {A : Type 0} → Dict A → List Text
keys d = map (λ e. e.0) d

published-keys : (ipv6 : Bool) (b : Bindings) → map (λ e. e.0) (published ipv6 b) ≡ map (λ e. e.0) b
published-keys ipv6 [] = refl
published-keys ipv6 ((k, hosts) ∷ b) = ap (◌∷◌ k) (published-keys ipv6 b)

all-elem : (ks : List Text) → all (λ k. elem k ks) ks ≡ true
unfolding all elem
all-elem [] = refl
all-elem (k ∷ ks) =
    rw (==_refl k)
      (all_mono (λ j. elem j ks) (λ j. elem j (k ∷ ks)) ks (λ j h. ground arith) (all-elem ks))

same_keys-published : (ipv6 : Bool) (b : Bindings) → same_keys (published ipv6 b) b ≡ true
unfolding same_keys
same_keys-published ipv6 b = rw (published-keys ipv6 b, all-elem (map (λ e. e.0) b)) refl

-- A published port that is found under its key.
get-published :
    (ipv6 : Bool) (k : Text) (b : Bindings) (hosts : List (Text × ℕ))
    → Dict.get k b ≡ some hosts
    → Dict.get k (published ipv6 b) ≡ some (all_reported ipv6 hosts)
unfolding Dict.get
get-published ipv6 k [] hosts h = cc
get-published ipv6 k ((j, w) ∷ b) hosts h = elim (Bool-cases (j == k)) [
  | inl same ↦
      let found : some w ≡ some hosts = rw same at h in
      let e : w ≡ hosts = cc in rw same (ap (λ x. some (all_reported ipv6 x)) e)
  | inr other ↦ rw other (get-published ipv6 k b hosts (rw other at h))
]

equal_port_refl : (p : ℕ) → (p =? p) ≡ true
equal_port_refl p = (=?_iff p p).1 refl

module _ (c : LocalCloudConfig) where
  -- An address of the host is compared as it is, and every address as no address.
  binds-single :
      (ipv6 : Bool) (p : ℕ)
      → binds c.local_only ((host_ip c, p) ∷ []) (some (all_reported ipv6 ((host_ip c, p) ∷ [])))
        ≡ true
  unfolding same_bindings all any codes ◌==◌
  binds-single ipv6 p = elim (Bool-cases c.local_only) [
    | inl loopback ↦ rw (loopback, equal_port_refl p) refl
    | inr everywhere ↦ elim (Bool-cases ipv6) [
      | inl dual ↦ rw (everywhere, dual, equal_port_refl p) refl
      | inr single ↦ rw (everywhere, single, equal_port_refl p) refl
    ]
  ]

  -- A key that is bound to one port on the settings' address.
  abbrev pub IsSingle : Text × List (Text × ℕ) → Type 0
  IsSingle (key, hosts) = (p : ℕ) × (hosts ≡ (host_ip c, p) ∷ [])

  pub bind_ports-IsSingle :
      (ps hs : List ℕ) (b : Bindings)
      → All IsSingle b
      → All IsSingle (bind_ports (host_ip c) ps hs b)
  unfolding bind_ports
  bind_ports-IsSingle [] hs b h = h
  bind_ports-IsSingle (p ∷ ps) [] b h = h
  bind_ports-IsSingle (p ∷ ps) (q ∷ hs) b h =
      bind_ports-IsSingle ps hs _
        (put-All IsSingle (port_key p tcp) ((host_ip c, q) ∷ []) b (q, refl) h)

  pub bind_ports-Distinct :
      (ps hs : List ℕ) (b : Bindings) → Distinct b → Distinct (bind_ports (host_ip c) ps hs b)
  unfolding bind_ports
  bind_ports-Distinct [] hs b h = h
  bind_ports-Distinct (p ∷ ps) [] b h = h
  bind_ports-Distinct (p ∷ ps) (q ∷ hs) b h =
      bind_ports-Distinct ps hs _ (put-Distinct (port_key p tcp) ((host_ip c, q) ∷ []) b h)

-- Every entry of a dict of distinct keys is found under its key.
abbrev IsFound : Bindings → Text × List (Text × ℕ) → Type 0
IsFound b (key, hosts) = Dict.get key b ≡ some hosts

skip_other :
    (i k : Text) (w hosts : List (Text × ℕ)) (b : Bindings)
    → Dict.get i b ≡ none
    → Dict.get k b ≡ some hosts
    → Dict.get k ((i, w) ∷ b) ≡ some hosts
unfolding Dict.get
skip_other i k w hosts b new h = elim (Bool-cases (i == k)) [
  | inl same ↦ let e = (==_iff i k).0 same in cc
  | inr other ↦ rw other h
]

skip_all :
    (i : Text) (w : List (Text × ℕ)) (b xs : Bindings)
    → Dict.get i b ≡ none
    → All (IsFound b) xs
    → All (IsFound ((i, w) ∷ b)) xs
skip_all i w b [] new h = tt
skip_all i w b ((k, hosts) ∷ xs) new (h, hs) =
    (skip_other i k w hosts b new h, skip_all i w b xs new hs)

Distinct-IsFound : (b : Bindings) → Distinct b → All (IsFound b) b
unfolding Dict.get
Distinct-IsFound [] h = tt
Distinct-IsFound ((i, w) ∷ b) (new, h) =
    (rw (==_refl i) refl, skip_all i w b b new (Distinct-IsFound b h))

module _ (c : LocalCloudConfig) where
  binds-all :
      (ipv6 : Bool) (b xs : Bindings)
      → All (IsFound b) xs
      → All (IsSingle c) xs
      → all (λ e. binds c.local_only e.1 (Dict.get e.0 (published ipv6 b))) xs ≡ true
  unfolding all
  binds-all ipv6 b [] h k = refl
  binds-all ipv6 b ((key, hosts) ∷ xs) (h, hs) ((p, e), ks) =
      let single : binds c.local_only hosts (some (all_reported ipv6 hosts)) ≡ true =
        subst (λ x. binds c.local_only x (some (all_reported ipv6 x)) ≡ true) (sym e)
          (binds-single c ipv6 p) in
      rw (get-published ipv6 key b hosts h, single, binds-all ipv6 b xs hs ks) refl

  matches_mysql_refl : (o : Option ℕ) → matches_mysql o o ≡ true
  matches_mysql_refl none = refl
  matches_mysql_refl (some n) = (=?_iff n n).1 refl

  pub publishes-published :
      (ipv6 : Bool) (b : Bindings)
      → Distinct b
      → All (IsSingle c) b
      → publishes c (record { published_ports = published ipv6 b; mysql_port = c.mysql_port }) b
        ≡ true
  unfolding publishes
  publishes-published ipv6 b h k =
      rw
        (
          same_keys-published ipv6 b,
          matches_mysql_refl c.mysql_port,
          binds-all ipv6 b b (Distinct-IsFound b h) k,
        )
        refl
