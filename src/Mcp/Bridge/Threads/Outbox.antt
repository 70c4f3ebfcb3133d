-- ===== src/Mcp/Bridge/Threads/Outbox.antt =====
-- What the steps of the adapter add to its outbox.
use mathlib.Core.List.{append-nil}
use localcloud_cli.Prelude.{
  if_both, ℕ, zero, suc, ◌-◌, ◌≡◌, refl, sym, ap, ◌∙◌, inl, inr, Bool, false, not, ◌&&◌, List, [],
  ◌∷◌, ◌++◌, Bool-cases, Option, none, some, ltb, ◌=?◌,
}
use localcloud_cli.Text.{◌==◌}
use localcloud_cli.Value.{Value}
use localcloud_cli.Mcp.Bridge.{
  Notice, tools_changed, resources_changed, prompts_changed, roots_list, list_changed, Bridge,
  Project, LateList, is_under_way, is_connected, is_failed, retry_interval, maybe_start_attempt,
  disconnect, request_roots, apply_roots, moved_to, select_workspace, take_cancelled, contains_id,
  tell_lists_changed, answer_late,
}

-- The numbers of the requests for roots.
abbrev pub numbers : List Notice → List ℕ
numbers [] = []
numbers (roots_list n ∷ ns) = n ∷ numbers ns
numbers (notice ∷ ns) = numbers ns

abbrev pub up_to : ℕ → List ℕ
up_to zero = []
up_to (suc n) = up_to n ++ suc n ∷ []

pub numbers-append : (xs ys : List Notice) → numbers (xs ++ ys) ≡ numbers xs ++ numbers ys
numbers-append [] ys = refl
numbers-append (tools_changed ∷ xs) ys = numbers-append xs ys
numbers-append (resources_changed ∷ xs) ys = numbers-append xs ys
numbers-append (prompts_changed ∷ xs) ys = numbers-append xs ys
numbers-append (roots_list n ∷ xs) ys = ap (λ ns. n ∷ ns) (numbers-append xs ys)

-- What a step adds to the outbox: what is no request, or the next request.
pub record Adds (b c : Bridge) (new : List Notice) : Type 0 where
  pub outbox : c.outbox ≡ b.outbox ++ new
  pub requests : up_to c.roots_request ≡ up_to b.roots_request ++ numbers new
  pub opened : c.client_initialized ≡ false → b.client_initialized ≡ false

pub Adds-nothing :
    (b c : Bridge)
    → c.outbox ≡ b.outbox
    → c.roots_request ≡ b.roots_request
    → (c.client_initialized ≡ false → b.client_initialized ≡ false)
    → Adds b c []
Adds-nothing b c same number opened = record {
  outbox = same ∙ sym (append-nil b.outbox);
  requests = ap up_to number ∙ sym (append-nil (up_to b.roots_request));
  opened = opened;
}

Adds-notices :
    (b : Bridge)
    → Adds b (record b { degraded = false; outbox = b.outbox ++ list_changed }) list_changed
Adds-notices b = record {
  outbox = refl;
  requests = sym (append-nil (up_to b.roots_request));
  opened = λ e. e;
}

abbrev pub Added : Bridge → Bridge → Type 0
Added b c = (new : List Notice) × Adds b c new

pub same-Added : (b : Bridge) → Added b b
same-Added b = ([], Adds-nothing b b refl refl λ e. e)

pub maybe_start_attempt-Added :
    (force : Bool) (now : ℕ) (b : Bridge) → Added b (maybe_start_attempt force now b).1
unfolding maybe_start_attempt
maybe_start_attempt-Added force now b = elim (Bool-cases (is_under_way b.status)) [
  | inl busy ↦ rw busy (same-Added b)
  | inr quiet ↦
      elim (Bool-cases
        (not force && is_failed b.status && ltb (now - b.last_failure) retry_interval)) [
          | inl early ↦ rw (quiet, early) (same-Added b)
          | inr due ↦ rw (quiet, due) ([], Adds-nothing b _ refl refl λ e. e)
        ]
]

pub tell_lists_changed-Added :
    (b c : Bridge)
    → c.outbox ≡ b.outbox
    → c.roots_request ≡ b.roots_request
    → c.client_initialized ≡ b.client_initialized
    → Added b (tell_lists_changed c)
unfolding tell_lists_changed
tell_lists_changed-Added b c same number opened =
    if_both (Added b) c.degraded _ _
      (
        list_changed,
        record {
          outbox = ap (λ ns. ns ++ list_changed) same;
          requests = ap up_to number ∙ sym (append-nil (up_to b.roots_request));
          opened = λ e. sym opened ∙ e;
        },
      )
      ([], Adds-nothing b c same number λ e. sym opened ∙ e)

pub answer_late-Added : (late : LateList) (b : Bridge) → Added b (answer_late late b)
unfolding answer_late
answer_late-Added late b =
    if_both (Added b) b.degraded _ _
      (tell_lists_changed-Added b (record b { late_lists = late ∷ b.late_lists }) refl refl refl)
      (same-Added b)

pub disconnect-Added : (generation : ℕ) (b : Bridge) → Added b (disconnect generation b)
unfolding disconnect
disconnect-Added generation b =
    elim (Bool-cases (b.generation =? generation && is_connected b.status)) [
      | inl active ↦ rw active ([], Adds-nothing b _ refl refl λ e. e)
      | inr other ↦ rw other (same-Added b)
    ]

pub moved_to-Added :
    (old new : Project) (b c : Bridge)
    → c.outbox ≡ b.outbox
    → c.roots_request ≡ b.roots_request
    → c.client_initialized ≡ b.client_initialized
    → Added b (moved_to old new c).1
moved_to-Added old new b c same number opened = elim (Bool-cases (new.name == old.name)) [
  | inl equal ↦ rw (equal, moved_to) ([], Adds-nothing b c same number λ e. sym opened ∙ e)
  | inr other ↦ elim (Bool-cases (is_connected c.status)) [
    | inl active ↦
        rw (other, active, moved_to) ([], Adds-nothing b _ same number λ e. sym opened ∙ e)
    | inr apart ↦ rw (other, apart, moved_to) ([], Adds-nothing b _ same number λ e. sym opened ∙ e)
  ]
]

pub select_workspace-Added :
    (found : Project) (p : Option Project) (b : Bridge) → Added b (select_workspace found p b).1
select_workspace-Added found none b = ([], Adds-nothing b _ refl refl λ e. e)
select_workspace-Added found (some project) b =
    moved_to-Added project _ b (record b { workspace = some found }) refl refl refl

pub apply_roots-Added : (found : Option Project) (b : Bridge) → Added b (apply_roots found b).1
unfolding apply_roots
apply_roots-Added none b = same-Added b
apply_roots-Added (some found) b = select_workspace-Added found b.project b

pub take_cancelled-Added : (id : Value) (b : Bridge) → Added b (take_cancelled id b).1
unfolding take_cancelled
take_cancelled-Added id b = elim (Bool-cases (contains_id id b.cancelled)) [
  | inl found ↦ rw found ([], Adds-nothing b _ refl refl λ e. e)
  | inr missed ↦ rw missed (same-Added b)
]

pub request_roots-Added : (b : Bridge) → Added b (request_roots b)
unfolding request_roots
request_roots-Added b = (
  roots_list (suc b.roots_request) ∷ [],
  record { outbox = refl; requests = refl; opened = λ e. e },
)
