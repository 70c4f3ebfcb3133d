-- ===== src/Mcp/Bridge/Threads/Delivery.antt =====
-- What the adapter sends to the client on its own: nothing before the client is initialized, then
-- everything once and in order, with a number of its own for each request.
use mathlib.Core.List.{append_assoc, append-nil}
use localcloud_cli.Prelude.{if_cases, ◌≡◌, refl, sym, ap, ◌∙◌, false, List, [], ◌++◌, Option}
use localcloud_cli.Mcp.Bridge.{Notice, Project, joined, succeed, fail, drain_outbox}
use localcloud_cli.Mcp.Bridge.Threads.Outbox.{
  numbers, up_to, numbers-append, Adds-nothing, Added, maybe_start_attempt-Added,
  tell_lists_changed-Added, answer_late-Added, disconnect-Added, apply_roots-Added,
  take_cancelled-Added, request_roots-Added,
}
use localcloud_cli.Mcp.Bridge.Threads.{
  Run, delivered, Step, Reach, here, next, at_start, start, connect, give_up, wake, refuse,
  show_without, answered, take_late, initialize, initialized, roots_asked, get_roots, roots_done,
  resolve, cancelled, take, drain,
}

-- All that was to be sent so far, in order.
abbrev pub queued : Run → List Notice
queued r = r.sent ++ r.bridge.outbox

-- What a step adds to all that was queued.
pub record Grows (r s : Run) (new : List Notice) : Type 0 where
  pub queue : queued s ≡ queued r ++ new
  pub requests : up_to s.bridge.roots_request ≡ up_to r.bridge.roots_request ++ numbers new
  pub silent :
      s.bridge.client_initialized ≡ false
      → (r.bridge.client_initialized ≡ false) × (s.sent ≡ r.sent)

abbrev pub Grown : Run → Run → Type 0
Grown r s = (new : List Notice) × Grows r s new

Added-Grown : (r s : Run) → Added r.bridge s.bridge → s.sent ≡ r.sent → Grown r s
Added-Grown r s (new, h) same = (
  new,
  record {
    queue =
        ap (λ ns. ns ++ s.bridge.outbox) same
        ∙ ap (λ ns. r.sent ++ ns) h.outbox
        ∙ sym (append_assoc r.sent r.bridge.outbox new);
    requests = h.requests;
    silent = λ e. (h.opened e, same);
  },
)

drain-Grown : (r : Run) → Grown r (delivered (drain_outbox r.bridge) r)
unfolding drain_outbox
drain-Grown r =
    if_cases (λ o. Grown r (delivered o r)) r.bridge.client_initialized _ _
      (λ ready. ([], record { queue = refl; requests = sym (append-nil _); silent = λ e. cc }))
      (λ shut. (
        [],
        record {
          queue =
              ap (λ ns. ns ++ r.bridge.outbox) (append-nil r.sent) ∙ sym (append-nil (queued r));
          requests = sym (append-nil _);
          silent = λ e. (e, append-nil r.sent);
        },
      ))

Step-Grown : {r s : Run} → Step r s → Grown r s
unfolding succeed fail
Step-Grown {r} (start force now) =
    Added-Grown r _ (maybe_start_attempt-Added force now r.bridge) refl
Step-Grown {r} (connect under_way) =
    Added-Grown r _ (tell_lists_changed-Added r.bridge (joined r.bridge) refl refl refl) refl
Step-Grown {r} (give_up code now under_way) =
    Added-Grown r _ ([], Adds-nothing r.bridge _ refl refl λ e. e) refl
Step-Grown {r} (wake over) = Added-Grown r _ ([], Adds-nothing r.bridge _ refl refl λ e. e) refl
Step-Grown {r} (refuse generation) = Added-Grown r _ (disconnect-Added generation r.bridge) refl
Step-Grown {r} show_without = Added-Grown r _ ([], Adds-nothing r.bridge _ refl refl λ e. e) refl
Step-Grown {r} (answered late) = Added-Grown r _ (answer_late-Added late r.bridge) refl
Step-Grown {r} (take_late kept) =
    Added-Grown r _ ([], Adds-nothing r.bridge _ refl refl λ e. e) refl
Step-Grown {r} (initialize roots) =
    Added-Grown r _ ([], Adds-nothing r.bridge _ refl refl λ e. e) refl
Step-Grown {r} initialized = Added-Grown r _ ([], Adds-nothing r.bridge _ refl refl λ e. cc) refl
Step-Grown {r} (roots_asked wanted) = Added-Grown r _ (request_roots-Added r.bridge) refl
Step-Grown {r} (get_roots id found pending) =
    Added-Grown r _ (apply_roots-Added found r.bridge) refl
Step-Grown {r} roots_done = Added-Grown r _ ([], Adds-nothing r.bridge _ refl refl λ e. e) refl
Step-Grown {r} (resolve project) =
    Added-Grown r _ ([], Adds-nothing r.bridge _ refl refl λ e. e) refl
Step-Grown {r} (cancelled id) = Added-Grown r _ ([], Adds-nothing r.bridge _ refl refl λ e. e) refl
Step-Grown {r} (take id) = Added-Grown r _ (take_cancelled-Added id r.bridge) refl
Step-Grown {r} drain = drain-Grown r

then-Grown : {r s t : Run} → Grown r s → Grown s t → Grown r t
then-Grown {r} {s} {t} (new, g) (more, h) = (
  new ++ more,
  record {
    queue = h.queue ∙ ap (λ ns. ns ++ more) g.queue ∙ append_assoc (queued r) new more;
    requests =
        h.requests
        ∙ ap (λ ns. ns ++ numbers more) g.requests
        ∙ append_assoc (up_to r.bridge.roots_request) (numbers new) (numbers more)
        ∙ ap (λ ns. up_to r.bridge.roots_request ++ ns) (sym (numbers-append new more));
    silent = λ e.
        let (opened, same) = h.silent e in
        let (before, same') = g.silent opened in (before, same ∙ same');
  },
)

pub Reach-Grown : {r s : Run} → Reach r s → Grown r s
Reach-Grown {r} here = (
  [],
  record {
    queue = sym (append-nil (queued r));
    requests = sym (append-nil (up_to r.bridge.roots_request));
    silent = λ e. (e, refl);
  },
)
Reach-Grown (next steps step) = then-Grown (Reach-Grown steps) (Step-Grown step)

-- Whatever the threads do: before the client is initialized nothing was sent to it; what was queued
-- stays queued or was sent, in its order, however long the run goes on; and the requests for roots
-- among it have the numbers 1, 2, … up to that of the last request.
pub queued-prefix :
    (project : Option Project) (r s : Run)
    → Reach (at_start project) r
    → Reach r s
    → (r.bridge.client_initialized ≡ false → r.sent ≡ [])
      × ((later : List Notice) × (queued s ≡ queued r ++ later))
      × (numbers (queued r) ≡ up_to r.bridge.roots_request)
queued-prefix project r s before after =
    let (new, g) = Reach-Grown before in
    let (later, h) = Reach-Grown after in
    ((λ e. (g.silent e).1), (later, h.queue), ap numbers g.queue ∙ sym g.requests)
