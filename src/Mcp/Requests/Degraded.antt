-- ===== src/Mcp/Requests/Degraded.antt =====
-- A client that was shown less than the runtime has is told once the runtime connects.
use localcloud_cli.Prelude.{◌≡◌, true, Option, none, some}
use localcloud_cli.Text.{Text}
use localcloud_cli.Value.{Value, Entries}
use localcloud_cli.Mcp.Bridge.{Bridge}
use localcloud_cli.Mcp.Replies.{Reply}
use localcloud_cli.Mcp.Requests.Forward.{World}
use localcloud_cli.Mcp.Requests.Theirs.{IsOwn}

-- A state in which the bridge knows that it owes the client a notification.
pub record IsNoted (o : Reply × Bridge) : Type 0 where
  pub noted : IsOwn o.0 → o.1.degraded ≡ true

module _ (w : World) (message : Entries) (id : Value) where
  -- A reply that came in time is the runtime's; without one, the debt is noted.
  abbrev Optional : Option Reply × Bridge → Type 0
  Optional (none, b) = b.degraded ≡ true
  Optional (some reply, b) = ¬ (IsOwn reply)

-- The same of a call that may have no reply.
abbrev OptionalNoted : Option Reply × Bridge → Type 0
OptionalNoted (none, b) = Unit
OptionalNoted (some reply, b) = IsNoted (reply, b)
