-- ===== src/Docker/Create/Added.antt =====
-- Adding one thing at the end, and removing it again.
use mathlib.Core.List.{Memᴰ}
use localcloud_cli.Prelude.{
  Bool, ◌||◌, map, arith, ◌≡◌, refl, sym, subst, ap, ◌∙◌, true, false, not, Bool-cases, List, [],
  ◌∷◌, ◌++◌, Option, none, some, inl, inr, keep_if, all,
}
use localcloud_cli.Text.{Text, ◌==◌, elem}
use localcloud_cli.Text.Laws.{==_refl, elem-Memᴰ}
use localcloud_cli.Dict
use localcloud_cli.Docker.Labels.{Labels, matches}
use localcloud_cli.Docker.Store.{
  Container, Resource, Daemon, Faults, Cleanup, named_container, remove_verified, delete_container,
  delete_network, delete_volume, without_container, without_resource, anonymous_of, is_mounted,
  without_anonymous,
}
use localcloud_cli.Docker.Create.{
  anonymous_volume, remove_made_container, remove_made_network, remove_made_volume,
}

module _ {A : Type 0} where
  abbrev pub IsFresh : (A → Text) → Text → List A → Type 0
  IsFresh id t xs = (y : A) → Memᴰ y xs → (id y == t) ≡ false

  -- What is there after nothing or one thing was added.
  abbrev pub IsAdded : A → List A → Option A → List A → Type 0
  IsAdded x before none xs = xs ≡ before
  IsAdded x before (some y) xs = (y ≡ x) × (xs ≡ before ++ x ∷ [])

  pub keep_if-fresh :
      (id : A → Text) (x : A) (xs : List A)
      → IsFresh id (id x) xs
      → keep_if (λ y. not (id y == id x)) (xs ++ x ∷ []) ≡ xs
  unfolding keep_if
  keep_if-fresh id x [] h = rw (==_refl (id x), keep_if) refl
  keep_if-fresh id x (y ∷ ys) h =
      rw (h y (Memᴰ.head refl), keep_if)
        (ap (λ zs. y ∷ zs) (keep_if-fresh id x ys (λ z m. h z (Memᴰ.tail m))))

-- What was made last is found by its name, where nothing had the name before.
pub named_container-append :
    (name : Text) (cs : List Container) (c : Container)
    → c.name ≡ name
    → named_container name cs ≡ none
    → named_container name (cs ++ c ∷ []) ≡ some c
unfolding named_container
named_container-append name [] c called h = rw (named_container, called, ==_refl name) refl
named_container-append name (e ∷ cs) c called h = elim (Bool-cases (e.name == name)) [
  | inl fits ↦ (let k = rw (fits, named_container) at h in cc)
  | inr fails ↦
      rw (fails, named_container)
        (named_container-append name cs c called (rw (fails, named_container) at h))
]

-- Labels are the expected ones where each expected label is found.
pub matches-all :
    (actual expected : Labels)
    → ((k v : Text) → Memᴰ (k, v) expected → Dict.get k actual ≡ some v)
    → matches actual expected ≡ true
unfolding matches all
matches-all actual [] h = refl
matches-all actual ((k, v) ∷ expected) h =
    rw (h k v (Memᴰ.head refl), ==_refl v)
      (matches-all actual expected (λ j w m. h j w (Memᴰ.tail m)))

pub remove_verified-removed :
    (f : Faults) (id : Text) (labels expected : Labels) (removed : Daemon → Daemon) (o : Cleanup)
    → matches labels expected ≡ true
    → f.remove id ≡ false
    → remove_verified f id labels expected removed o ≡ (o.0, removed o.1)
unfolding remove_verified
remove_verified-removed f id labels expected removed (failures, d) same fine = rw (same, fine) refl

-- Names that no volume has and no container mounts.
pub record AreFree (names : List Text) (cs : List Container) (vs : List Resource) : Type 0 where
  pub volumes : (v : Resource) → Memᴰ v vs → elem v.name names ≡ false
  pub mounts : (name : Text) → elem name names ≡ true → is_mounted name cs ≡ false

-- The volumes after a container was made, or none.
abbrev pub with_made : Option Container → List Resource → List Resource
with_made none vs = vs
with_made (some c) vs = vs ++ map anonymous_volume c.anonymous

-- Only the anonymous volumes go.
keep_if-anonymous :
    (p : Resource → Bool) (vs : List Resource) (names : List Text)
    → ((v : Resource) → Memᴰ v vs → p v ≡ true)
    → ((name : Text) → Memᴰ name names → p (anonymous_volume name) ≡ false)
    → keep_if p (vs ++ map anonymous_volume names) ≡ vs
unfolding keep_if
keep_if-anonymous p [] [] stays goes = refl
keep_if-anonymous p [] (name ∷ names) stays goes =
    rw (goes name (Memᴰ.head refl), keep_if)
      (keep_if-anonymous p [] names stays (λ n m. goes n (Memᴰ.tail m)))
keep_if-anonymous p (v ∷ vs) names stays goes =
    rw (stays v (Memᴰ.head refl), keep_if)
      (ap (λ ws. v ∷ ws) (keep_if-anonymous p vs names (λ w m. stays w (Memᴰ.tail m)) goes))

anonymous_of-fresh :
    (x : Container) (xs : List Container)
    → IsFresh (λ (y : Container). y.id) x.id xs
    → anonymous_of x.id (xs ++ x ∷ []) ≡ x.anonymous
unfolding anonymous_of
anonymous_of-fresh x [] h = rw (anonymous_of, ==_refl x.id) refl
anonymous_of-fresh x (y ∷ ys) h =
    rw (anonymous_of, h y (Memᴰ.head refl)) (anonymous_of-fresh x ys (λ z m. h z (Memᴰ.tail m)))

unnamed : (a b : Bool) → a ≡ false → (not a || b) ≡ true
unnamed a b h = ground arith

unmounted : (a b : Bool) → a ≡ true → b ≡ false → (not a || b) ≡ false
unmounted a b h k = ground arith

without_anonymous-made :
    (x : Container) (xs : List Container) (vs : List Resource)
    → IsFresh (λ (y : Container). y.id) x.id xs
    → AreFree x.anonymous xs vs
    → without_anonymous x.id (xs ++ x ∷ []) (vs ++ map anonymous_volume x.anonymous) ≡ vs
unfolding without_anonymous without_container
without_anonymous-made x xs vs fresh free =
    rw (anonymous_of-fresh x xs fresh, keep_if-fresh (λ (y : Container). y.id) x xs fresh)
      (keep_if-anonymous _ vs x.anonymous
        (λ v m. unnamed (elem v.name x.anonymous) _ (free.volumes v m))
        λ name m.
          let there = elem-Memᴰ name x.anonymous m in
          unmounted (elem name x.anonymous) _ there (free.mounts name there))

module _ (f : Faults) where
  pub remove_made_container-Added :
      (x : Container) (xs : List Container) (vs : List Resource) (o : Option Container)
      (r : Cleanup)
      → IsFresh (λ (y : Container). y.id) x.id xs
      → AreFree x.anonymous xs vs
      → matches x.labels x.labels ≡ true
      → f.remove x.id ≡ false
      → IsAdded x xs o r.1.containers
      → r.1.volumes ≡ with_made o vs
      → remove_made_container f x.labels o r ≡ (r.0, record r.1 { containers = xs; volumes = vs })
  unfolding delete_container without_container
  remove_made_container-Added x xs vs none (failures, d) fresh free same fine e made =
      ap (λ ys. (failures, record d { containers = ys; volumes = d.volumes })) e
      ∙ ap (λ ws. (failures, record d { containers = xs; volumes = ws })) made
  remove_made_container-Added x xs vs (some y) (failures, d) fresh free same fine (is, e) made =
      subst
        (λ (z : Container).
          d.volumes ≡ with_made (some z) vs
          → remove_made_container f x.labels (some z) (failures, d)
            ≡ (failures, record d { containers = xs; volumes = vs }))
        (sym is)
        (λ all_made.
          remove_verified-removed f x.id x.labels x.labels (delete_container x.id) (failures, d)
            same fine
          ∙ (ap
                (λ ys. (
                  failures,
                  record d {
                    containers = without_container x.id ys;
                    volumes = without_anonymous x.id ys d.volumes;
                  },
                ))
                e
              ∙ (ap
                    (λ ws. (
                      failures,
                      record d {
                        containers = without_container x.id (xs ++ x ∷ []);
                        volumes = without_anonymous x.id (xs ++ x ∷ []) ws;
                      },
                    ))
                    all_made
                  ∙ (ap
                        (λ ys. (
                          failures,
                          record d {
                            containers = ys;
                            volumes =
                                without_anonymous x.id (xs ++ x ∷ [])
                                  (vs ++ map anonymous_volume x.anonymous);
                          },
                        ))
                        (keep_if-fresh (λ (y : Container). y.id) x xs fresh)
                      ∙ ap (λ ws. (failures, record d { containers = xs; volumes = ws }))
                          (without_anonymous-made x xs vs fresh free)))))
        made

  pub remove_made_network-Added :
      (x : Resource) (xs : List Resource) (o : Option Resource) (r : Cleanup)
      → IsFresh (λ (y : Resource). y.id) x.id xs
      → matches x.labels x.labels ≡ true
      → f.remove x.id ≡ false
      → IsAdded x xs o r.1.networks
      → remove_made_network f x.labels o r ≡ (r.0, record r.1 { networks = xs })
  unfolding delete_network without_resource
  remove_made_network-Added x xs none (failures, d) fresh same fine e =
      ap (λ ys. (failures, record d { networks = ys })) e
  remove_made_network-Added x xs (some y) (failures, d) fresh same fine (is, e) =
      subst
        (λ (z : Resource).
          remove_made_network f x.labels (some z) (failures, d)
          ≡ (failures, record d { networks = xs }))
        (sym is)
        (remove_verified-removed f x.id x.labels x.labels (delete_network x.id) (failures, d) same
            fine
          ∙ ap (λ ys. (failures, record d { networks = ys }))
              (ap (keep_if (λ (y : Resource). not (y.id == x.id))) e
                ∙ keep_if-fresh (λ (y : Resource). y.id) x xs fresh))

  pub remove_made_volume-Added :
      (x : Resource) (xs : List Resource) (o : Option Resource) (r : Cleanup)
      → IsFresh (λ (y : Resource). y.id) x.id xs
      → matches x.labels x.labels ≡ true
      → f.remove x.id ≡ false
      → IsAdded x xs o r.1.volumes
      → remove_made_volume f x.labels o r ≡ (r.0, record r.1 { volumes = xs })
  unfolding delete_volume without_resource
  remove_made_volume-Added x xs none (failures, d) fresh same fine e =
      ap (λ ys. (failures, record d { volumes = ys })) e
  remove_made_volume-Added x xs (some y) (failures, d) fresh same fine (is, e) =
      subst
        (λ (z : Resource).
          remove_made_volume f x.labels (some z) (failures, d)
          ≡ (failures, record d { volumes = xs }))
        (sym is)
        (remove_verified-removed f x.id x.labels x.labels (delete_volume x.id) (failures, d) same
            fine
          ∙ ap (λ ys. (failures, record d { volumes = ys }))
              (ap (keep_if (λ (y : Resource). not (y.id == x.id))) e
                ∙ keep_if-fresh (λ (y : Resource). y.id) x xs fresh))
