-- ===== src/Ports.antt =====
-- internal/instance/ports.go: the search for a free base port.
mod Search
mod Samples
use valmin.Shared.{
  ℕ, zero, suc, ◌+◌, ◌*◌, Bool, true, false, not, ◌&&◌, ◌||◌, List, [], ◌∷◌, Option, none, some,
  Text, codes, text_eq, if◌then◌else◌, ◌==◌,
}

pub record PublishedPort : Type 0 where
  pub proto : Text
  pub host_port : ℕ

pub record Container : Type 0 where
  pub running : Bool
  pub ports : List PublishedPort

abbrev pub max_port_scan : ℕ
max_port_scan = 1000

-- A `map[int]bool` as the list of its keys.
abbrev pub has_port : ℕ → List ℕ → Bool
has_port port [] = false
has_port port (p ∷ ports) = p == port || has_port port ports

-- The loops of `publishedPorts`, where there is an engine and it answers.
ports_of : List PublishedPort → List ℕ
ports_of [] = []
ports_of (p ∷ ports) =
    let rest = ports_of ports in
    if text_eq p.proto (codes "udp") && not (p.host_port == 0) then p.host_port ∷ rest else rest

abbrev append_ports : List ℕ → List ℕ → List ℕ
append_ports [] ps = ps
append_ports (p ∷ ports) ps = p ∷ append_ports ports ps

pub taken_by : List Container → List ℕ
unfolding ports_of
taken_by [] = []
taken_by (c ∷ containers) =
    let rest = taken_by containers in
    if c.running then append_ports (ports_of c.ports) rest else rest

-- The engine: absent, failing, or with its containers.
pub data Engine : Type 0 where
  no_engine : Engine
  failing : Engine
  listing : List Container → Engine

pub published_ports : Engine → Option (List ℕ)
published_ports no_engine = some []
published_ports failing = none
published_ports (listing containers) = some (taken_by containers)

-- How a bind in one address family ends.
pub data Bind : Type 0 where
  bound : Bind
  unsupported : Bind
  refused : Bind

abbrev family_free : Bind → Bool
family_free refused = false
family_free _ = true

-- `freeOn`, with the binds of `net.ListenUDP` in the two families given: `udp4` is `true`.
pub free_on : (Bool → ℕ → Bind) → ℕ → Bool
free_on listen port = family_free (listen true port) && family_free (listen false port)

pub data Allocation : Type 0 where
  allocated : ℕ → Allocation
  exhausted : Allocation
  lookup_failed : Allocation

-- `allocate` takes the allocator's base and stride as they are configured.
module _ (base stride : ℕ) (listen : Bool → ℕ → Bind) (used published : List ℕ) where
  -- The two tests of the loop on one candidate.
  pub candidate_free : ℕ → Bool
  candidate_free port =
      not (has_port port used || has_port port published || has_port (suc port) published)
      && (free_on listen port && free_on listen (suc port))

  -- The loop from `i` on, with `left` turns to go.
  pub scan : ℕ → ℕ → Allocation
  unfolding candidate_free
  scan zero i = exhausted
  scan (suc left) i =
      let rest = scan left (suc i) in
      if candidate_free (base + i * stride) then allocated (base + i * stride) else rest

abbrev scan_over : (base stride : ℕ) → (Bool → ℕ → Bind) → List ℕ → Option (List ℕ) → Allocation
scan_over base stride listen used none = lookup_failed
scan_over base stride listen used (some published) =
    scan base stride listen used published max_port_scan 0

-- `Allocate`: the used base ports are `none` where their lookup fails.
pub allocate : (base stride : ℕ) → (Bool → ℕ → Bind) → Option (List ℕ) → Engine → Allocation
allocate base stride listen none containers = lookup_failed
allocate base stride listen (some used) containers =
    scan_over base stride listen used (published_ports containers)
