-- ===== src/Config/Ports/Ranges.antt =====
-- The port ranges and the ports of services that config.py accepts.
use localcloud_cli.Prelude.{ℕ, ◌≤◌, ◌≡◌, Bool, ltb, arith, ok}
use localcloud_cli.Prelude.{Returns, Returns-ok, Returns-raise, Returns-if, Returns-after}
use localcloud_cli.Text.{Text, strip, partition}
use localcloud_cli.Text.Numbers.{parse_int}
use localcloud_cli.Value.{Value}
use localcloud_cli.Config.Fields.{invalid}
use localcloud_cli.Config.Ports.{port_range, checked_range, parsed_range, range_text}

-- A range of ports that a process may listen on without privileges.
abbrev pub IsUserRange : ℕ × ℕ → Type 0
IsUserRange (start, last) = (1024 ≤ start) × (start ≤ last) × (last ≤ 65535)

checked_range-IsUserRange : (s t : Text) → Returns IsUserRange (checked_range s t)
unfolding checked_range
checked_range-IsUserRange s t = Returns-after (parse_int (strip s)) _ λ start h.
    Returns-if (ltb start 1024) _ _ (λ low. Returns-raise invalid)
      λ high. Returns-after (parse_int (strip t)) _ λ last k.
        Returns-if _ _ _
          (λ fits. Returns-ok (start, last) (ground arith, ground arith, ground arith))
          λ unfit. Returns-raise invalid

parsed_range-IsUserRange : (p : Text × Bool × Text) → Returns IsUserRange (parsed_range p)
parsed_range-IsUserRange (s, found, t) =
    Returns-if _ _ _ (λ h. checked_range-IsUserRange s t) λ h. Returns-raise invalid

-- A `host.port_range` or a `--port-range` that is accepted, whatever value was written, is a range
-- from 1024 to 65535 that is not empty.
pub port_range-IsUserRange :
    (v : Value) (start last : ℕ)
    → port_range v ≡ ok (start, last)
    → (1024 ≤ start) × (start ≤ last) × (last ≤ 65535)
unfolding port_range
port_range-IsUserRange v start last h =
    (parsed_range-IsUserRange (partition b'-' (strip (range_text v)))).at (start, last) h
