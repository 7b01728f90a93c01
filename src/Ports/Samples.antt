-- ===== src/Ports/Samples.antt =====
-- The search on a host with one server.
use valmin.Shared.{ℕ, ◌≡◌, refl, Bool, true, false, List, [], ◌∷◌, some, codes, if◌then◌else◌, ◌==◌}
use valmin.Ports.{
  Container, taken_by, listing, published_ports, Bind, bound, unsupported, refused, free_on,
  allocated, scan, allocate,
}

-- IPv6 is off, and something holds 2466 in IPv4.
abbrev listen : Bool → ℕ → Bind
listen false port = unsupported
listen true port = if port == 2466 then refused else bound

abbrev containers : List Container
containers =
    record { running = true; ports = record { proto = codes "udp"; host_port = 2462 } ∷ [] }
    ∷ record { running = false; ports = record { proto = codes "udp"; host_port = 2471 } ∷ [] }
    ∷ []

fourth : allocate 2456 5 listen (some (2456 ∷ [])) (listing containers) ≡ allocated 2471
unfolding allocate published_ports scan taken_by free_on
fourth = refl
