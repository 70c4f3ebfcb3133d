-- ===== src/Runtime/Block/Windows.antt =====
-- The block that the search returns, and when there is one.
use localcloud_cli.Prelude.{
  ℕ, zero, suc, ◌+◌, ◌-◌, ◌≤◌, ◌≡◌, refl, subst, sym, Bool, true, false, List, [], ◌∷◌, none, some,
  all, arith, Bool-cases, inl, inr, Option-cases, ok, length, ok-injective, ◌∙◌, ◌⊎◌, ◌=?◌, =?_iff,
}
use localcloud_cli.Runtime.Layout.{range}
use localcloud_cli.Runtime.Block.{PortRange, try_starts, block_in, available_tcp_port_block}

pub length-range : (start count : ℕ) → length (range start count) ≡ count
unfolding range
length-range start zero = refl
length-range start (suc count) = omega (arith, length-range (suc start) count)

-- A port range of the list.
pub data Among (r : PortRange) : List PortRange → Type 0 where
  here : {rs : List PortRange} → Among r (r ∷ rs)
  there : {q : PortRange} {rs : List PortRange} → Among r rs → Among r (q ∷ rs)

same_or_later : (m n : ℕ) → m ≤ n → (m ≡ n) ⊎ (suc m ≤ n)
same_or_later m n h = elim (Bool-cases (m =? n)) [
  | inl same ↦ inl ((=?_iff m n).0 same)
  | inr other ↦ inr (ground arith)
]

module _ (usable : ℕ → Bool) where
  -- `count` consecutive usable ports of a range.
  pub record Window (count start : ℕ) (r : PortRange) : Type 0 where
    pub from : r.start ≤ start
    pub to : start + count ≤ r.stop
    pub free : all usable (range start count) ≡ true

  try_starts-some :
      (rounds start count : ℕ) (ports : List ℕ)
      → try_starts usable rounds start count ≡ some ports
      → (s : ℕ) × (start ≤ s)
        × (suc s ≤ start + rounds)
        × (ports ≡ range s count)
        × (all usable (range s count) ≡ true)
  unfolding try_starts
  try_starts-some zero start count ports h = cc
  try_starts-some (suc rounds) start count ports h =
      elim (Bool-cases (all usable (range start count))) [
        | inl free ↦
            let found : some (range start count) ≡ some ports = rw free at h in
            (start, omega arith, omega arith, sym (cc), free)
        | inr taken ↦
            let (s, from, to, e, free) =
              try_starts-some rounds (suc start) count ports (rw taken at h) in
            (s, omega arith, omega arith, e, free)
      ]

  absurd_block : {A : Type 0} {ports : List ℕ} → some ports ≡ none → A
  absurd_block h = cc

  try_starts-none :
      (rounds start count s : ℕ)
      → try_starts usable rounds start count ≡ none
      → start ≤ s
      → suc s ≤ start + rounds
      → all usable (range s count) ≡ false
  unfolding try_starts
  try_starts-none zero start count s h from to = absurd (omega arith)
  try_starts-none (suc rounds) start count s h from to =
      elim (Bool-cases (all usable (range start count))) [
        | inl free ↦ absurd_block (rw free at h)
        | inr taken ↦ elim (same_or_later start s from) [
          | inl same ↦ subst (λ n. all usable (range n count) ≡ false) same taken
          | inr later ↦
              try_starts-none rounds (suc start) count s (rw taken at h) later (omega arith)
        ]
      ]

  -- A block that the search returns is made of the asked number of consecutive host ports inside
  -- one of the ranges, each of them usable.
  pub available_tcp_port_block-Window :
      (count : ℕ) (ranges : List PortRange) (ports : List ℕ)
      → available_tcp_port_block usable count ranges ≡ ok ports
      → (r : PortRange) × Among r ranges × ((s : ℕ) × Window count s r × (ports ≡ range s count))
  unfolding available_tcp_port_block block_in
  available_tcp_port_block-Window count [] ports h = cc
  available_tcp_port_block-Window count (r ∷ ranges) ports h =
      elim (Option-cases (block_in usable count r)) [
        | inl none_here ↦
            let (q, among, found) =
              available_tcp_port_block-Window count ranges ports
                (rw (available_tcp_port_block, none_here) at h) in
            (q, there among, found)
        | inr (block, e) ↦
            let found : ok block ≡ ok ports = rw (available_tcp_port_block, e) at h in
            let (s, from, to, same, free) =
              try_starts-some (suc r.stop - count - r.start) r.start count block e in
            (
              r,
              here,
              (
                s,
                record { from = from; to = omega arith; free = free },
                sym (ok-injective block ports found) ∙ same,
              ),
            )
      ]

  block_in-none :
      (count s : ℕ) (r : PortRange) → Window count s r → block_in usable count r ≡ none → ⊥
  unfolding block_in
  block_in-none count s r window h =
      let taken =
        try_starts-none (suc r.stop - count - r.start) r.start count s h window.from
          (omega (arith, window.from, window.to)) in
      let free = window.free in cc

  -- If some range holds the asked number of consecutive usable host ports, the search returns a
  -- block.
  pub available_tcp_port_block-found :
      (count s : ℕ) (r : PortRange) (ranges : List PortRange)
      → Among r ranges
      → Window count s r
      → (ports : List ℕ) × (available_tcp_port_block usable count ranges ≡ ok ports)
  unfolding available_tcp_port_block block_in
  available_tcp_port_block-found count s r [] among window = elim among [ ]
  available_tcp_port_block-found count s r (q ∷ ranges) (there among) window =
      elim (Option-cases (block_in usable count q)) [
        | inr (block, e) ↦ (block, rw (available_tcp_port_block, e) refl)
        | inl none_here ↦
            let (ports, found) = available_tcp_port_block-found count s r ranges among window in
            (ports, rw (available_tcp_port_block, none_here) found)
      ]
  available_tcp_port_block-found count s r (q ∷ ranges) here window =
      elim (Option-cases (block_in usable count q)) [
        | inr (block, e) ↦ (block, rw (available_tcp_port_block, e) refl)
        | inl none_here ↦ absurd (block_in-none count s q window none_here)
      ]
