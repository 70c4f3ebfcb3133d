-- ===== src/Mcp/Bridge/Tests.antt =====
-- The threads of the adapter in concrete orders of their steps.
use localcloud_cli.Prelude.{◌≡◌, refl, ◌≤◌, ◌+◌, true, false, List, [], ◌∷◌, ◌++◌, none, arith}
use localcloud_cli.Text.{codes}
use localcloud_cli.Mcp.Bridge.{
  Notice, connecting, roots_list, tools_changed, resources_changed, prompts_changed,
  maybe_start_attempt, tell_lists_changed, succeed, fail, disconnect, drain_outbox, request_roots,
  wants_roots,
}
use localcloud_cli.Mcp.Bridge.Threads.{
  Run, Reach, here, next, at_start, start, connect, wake, refuse, show_without, initialize,
  initialized, roots_asked, drain,
}
use localcloud_cli.Mcp.Bridge.Threads.Attempts.{attempts_of, attempts_once}
use localcloud_cli.Mcp.Bridge.Threads.Outbox.{numbers, up_to}
use localcloud_cli.Mcp.Bridge.Threads.Delivery.{queued, queued-prefix}

-- What a run of the module computes through.
runs : Unit {0}
unfolding codes maybe_start_attempt tell_lists_changed succeed fail disconnect drain_outbox
    request_roots wants_roots
runs = tt

-- The client initializes, sees lists without the runtime's items and is asked for its roots; then
-- the runtime connects.
joined :
    (r : Run) × Reach (at_start none) r
    × (r.bridge.outbox ≡ roots_list 1 ∷ tools_changed ∷ resources_changed ∷ prompts_changed ∷ [])
unfolding runs
joined = (
  _,
  next
      (next
        (next (next (next (next here (start true 0)) (initialize true)) show_without) initialized)
        (roots_asked refl))
      (connect (omega arith)),
  refl,
)

emptied : (s : Run) × Reach joined.0 s × (s.sent ≡ joined.0.bridge.outbox) × (s.bridge.outbox ≡ [])
unfolding runs joined
emptied = (_, next here drain, refl, refl)

-- An attempt that has connected wakes the requests only after its callback. Where the connection is
-- refused in between, the requests that wait for the next attempt are woken while it connects.
woken_early :
    (r : Run) × Reach (at_start none) r
    × (r.bridge.status ≡ connecting)
    × (r.bridge.attempt_done ≡ true)
unfolding runs
woken_early = (
  _,
  next
      (next (next (next (next here (start true 0)) (connect (omega arith))) (refuse 1))
        (start false 1000))
      (wake (omega arith)),
  refl,
  refl,
)

attempts_once_example :
    (joined.0.attempts ≡ attempts_of joined.0.bridge.status)
    × (joined.0.bridge.attempt_done ≡ false → 1 ≤ joined.0.attempts + joined.0.ending)
attempts_once_example = attempts_once none joined.0 joined.1

queued-prefix_example :
    (joined.0.bridge.client_initialized ≡ false → joined.0.sent ≡ [])
    × ((later : List Notice) × (queued emptied.0 ≡ queued joined.0 ++ later))
    × (numbers (queued joined.0) ≡ up_to joined.0.bridge.roots_request)
queued-prefix_example = queued-prefix none joined.0 emptied.0 joined.1 emptied.1
