-- ===== src/State/Lock/Exclusive.antt =====
-- What a thread in `_file_lock` owns, and that at most one thread of all processes is in it.
use localcloud_cli.Prelude.{
  ℕ, ◌≡◌, refl, sym, subst, ◌∙◌, ap, ◌≢◌, inl, inr, false, Option, none, some, ◌=?◌, =?_iff,
  Bool-cases, arith,
}
use localcloud_cli.Text.{Text}
use localcloud_cli.State.Lock.{
  Phase, outside, entered, locked, looked, System, put, worked, leaving, Step, enter, refused, lock,
  look, write, unlock, leave, Reach, here, next,
}

module _ {A : Type 0} where
  put-same : (k : ℕ) (v : A) (f : ℕ → A) → put k v f k ≡ v
  unfolding put
  put-same k v f = ground arith

  put-other : (k i : ℕ) (v : A) (f : ℕ → A) → i ≢ k → put k v f i ≡ f i
  unfolding put
  put-other k i v f h = ground arith

module _ {A : Type 0} where
  -- Another key than that of a value which differs.
  put-kept : (k i : ℕ) (v w : A) (f : ℕ → A) → f k ≢ w → f i ≡ w → put k v f i ≡ w
  put-kept k i v w f h e = put-other k i v f (λ same. h (ap f (sym same) ∙ e)) ∙ e

some-same : {A : Type 0} (a b : A) → some a ≡ some b → a ≡ b
some-same a b h = cc

apart : (u t : ℕ) → (u =? t) ≡ false → u ≢ t
apart u t h = ground arith

none-apart : {A : Type 0} (o : Option A) (a : A) → o ≡ none → o ≢ some a
none-apart o a h e = cc

some-apart : {A : Type 0} (o : Option A) (a b : A) → o ≡ some a → a ≢ b → o ≢ some b
some-apart o a b h k e = k (some-same a b (sym h ∙ e))

module _ (hexdigest : Text → Text) (process : ℕ → ℕ) where
  -- What a thread in a phase owns.
  abbrev pub Owns : System → ℕ → Phase → Type 0
  Owns s t outside = Unit
  Owns s t entered = s.process_lock (process t) ≡ some t
  Owns s t locked = (s.process_lock (process t) ≡ some t) × (s.flock ≡ some t)
  Owns s t (looked seen) =
      (s.process_lock (process t) ≡ some t) × (s.flock ≡ some t) × (s.home.active ≡ seen)
  Owns s t worked = (s.process_lock (process t) ≡ some t) × (s.flock ≡ some t)
  Owns s t leaving = s.process_lock (process t) ≡ some t

  -- The phases between `flock` and its release.
  abbrev pub HasFlock : Phase → Type 0
  HasFlock outside = ⊥
  HasFlock entered = ⊥
  HasFlock locked = Unit
  HasFlock (looked seen) = Unit
  HasFlock worked = Unit
  HasFlock leaving = ⊥

  Owns-flock : (s : System) (t : ℕ) (p : Phase) → Owns s t p → HasFlock p → s.flock ≡ some t
  Owns-flock s t outside _ h = elim h [ ]
  Owns-flock s t entered _ h = elim h [ ]
  Owns-flock s t leaving _ h = elim h [ ]
  Owns-flock s t locked (mutex, flock) h = flock
  Owns-flock s t (looked seen) (mutex, flock, same) h = flock
  Owns-flock s t worked (mutex, flock) h = flock

  pub record IsExclusive (s : System) : Type 0 where
    pub owns : (t : ℕ) → Owns s t (s.phase t)

  -- A step that leaves to a thread what that thread owns.
  record Frames (s r : System) (u : ℕ) : Type 0 where
    mutex : s.process_lock (process u) ≡ some u → r.process_lock (process u) ≡ some u
    flock : s.flock ≡ some u → r.flock ≡ some u
    active : s.flock ≡ some u → r.home.active ≡ s.home.active

  Frames-Owns : (s r : System) (u : ℕ) (p : Phase) → Frames s r u → Owns s u p → Owns r u p
  Frames-Owns s r u outside h o = tt
  Frames-Owns s r u entered h o = h.mutex o
  Frames-Owns s r u locked h (p, l) = (h.mutex p, h.flock l)
  Frames-Owns s r u (looked seen) h (p, l, a) = (h.mutex p, h.flock l, h.active l ∙ a)
  Frames-Owns s r u worked h (p, l) = (h.mutex p, h.flock l)
  Frames-Owns s r u leaving h o = h.mutex o

  -- The rule for a step of thread t to a phase in which it owns what it should.
  step_rule :
      (s r : System) (t : ℕ) (p : Phase)
      → IsExclusive s
      → r.phase ≡ put t p s.phase
      → Owns r t p
      → ((u : ℕ) → u ≢ t → Frames s r u)
      → IsExclusive r
  step_rule s r t p h moves own others = record {
    owns = λ u. elim (Bool-cases (u =? t)) [
      | inl mine ↦
          subst (λ v. Owns r v (r.phase v)) (sym ((=?_iff u t).0 mine))
            (subst (Owns r t) (sym (subst (λ g. g t ≡ p) (sym moves) (put-same t p s.phase))) own)
      | inr other ↦
          subst (Owns r u)
            (sym (
              subst (λ g. g u ≡ s.phase u) (sym moves) (put-other t u p s.phase (apart u t other))))
            (Frames-Owns s r u (s.phase u) (others u (apart u t other)) (h.owns u))
    ];
  }

  enter-IsExclusive :
      (s : System) (t : ℕ)
      → s.process_lock (process t) ≡ none
      → IsExclusive s
      → IsExclusive (record s {
        phase = put t entered s.phase;
        process_lock = put (process t) (some t) s.process_lock;
      })
  enter-IsExclusive s t free h =
      step_rule s _ t entered h refl (put-same (process t) (some t) s.process_lock) λ u away.
        record {
          mutex = λ own.
              put-kept (process t) (process u) (some t) (some u) s.process_lock
                (none-apart _ u free) own;
          flock = λ own. own;
          active = λ own. refl;
        }

  leave-IsExclusive :
      (s : System) (t : ℕ)
      → s.phase t ≡ leaving
      → IsExclusive s
      → IsExclusive (record s {
        phase = put t outside s.phase;
        process_lock = put (process t) none s.process_lock;
      })
  leave-IsExclusive s t at h =
      let mine = subst (Owns s t) at (h.owns t) in
      step_rule s _ t outside h refl tt λ u away. record {
        mutex = λ own.
            put-kept (process t) (process u) none (some u) s.process_lock
              (some-apart _ t u mine (λ e. away (sym e))) own;
        flock = λ own. own;
        active = λ own. refl;
      }

  Step-IsExclusive : {s r : System} → Step hexdigest process s r → IsExclusive s → IsExclusive r
  Step-IsExclusive {s} (enter t at free) h = enter-IsExclusive s t free h
  Step-IsExclusive {s} (refused t at) h =
      step_rule s _ t leaving h refl (subst (Owns s t) at (h.owns t))
        λ u away. record { mutex = λ own. own; flock = λ own. own; active = λ own. refl }
  Step-IsExclusive {s} (lock t at free) h =
      step_rule s _ t locked h refl (subst (Owns s t) at (h.owns t), refl)
        λ u away. record {
          mutex = λ own. own;
          flock = λ own. absurd (none-apart s.flock u free own);
          active = λ own. refl;
        }
  Step-IsExclusive {s} (look t at) h =
      let (mutex, flock) = subst (Owns s t) at (h.owns t) in
      step_rule s _ t (looked s.home.active) h refl (mutex, flock, refl)
        λ u away. record { mutex = λ own. own; flock = λ own. own; active = λ own. refl }
  Step-IsExclusive {s} (write t seen f c at locks) h =
      let (mutex, flock, same) = subst (Owns s t) at (h.owns t) in
      step_rule s _ t worked h refl (mutex, flock)
        λ u away. record {
          mutex = λ own. own;
          flock = λ own. own;
          active = λ own. absurd (some-apart s.flock t u flock (λ e. away (sym e)) own);
        }
  Step-IsExclusive {s} (unlock t at) h =
      let (mutex, flock) = subst (Owns s t) at (h.owns t) in
      step_rule s _ t leaving h refl mutex λ u away. record {
        mutex = λ own. own;
        flock = λ own. absurd (some-apart s.flock t u flock (λ e. away (sym e)) own);
        active = λ own. refl;
      }
  Step-IsExclusive {s} (leave t at) h = leave-IsExclusive s t at h

  pub Reach-IsExclusive :
      {s r : System} → Reach hexdigest process s r → IsExclusive s → IsExclusive r
  Reach-IsExclusive here h = h
  Reach-IsExclusive (next steps step) h = Step-IsExclusive step (Reach-IsExclusive steps h)

  pub outside-IsExclusive : (s : System) → ((t : ℕ) → s.phase t ≡ outside) → IsExclusive s
  outside-IsExclusive s h = record { owns = λ t. subst (Owns s t) (sym (h t)) tt }

  -- Two threads that have the lock at once, of whatever processes, are one.
  pub locked_once :
      (s r : System) (t u : ℕ)
      → ((v : ℕ) → s.phase v ≡ outside)
      → Reach hexdigest process s r
      → HasFlock (r.phase t)
      → HasFlock (r.phase u)
      → t ≡ u
  locked_once s r t u quiet steps a b =
      let h = Reach-IsExclusive steps (outside-IsExclusive s quiet) in
      some-same t u
        (sym (Owns-flock r t (r.phase t) (h.owns t) a) ∙ Owns-flock r u (r.phase u) (h.owns u) b)
