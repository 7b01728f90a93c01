-- ===== src/Ports/Search.antt =====
-- The port that the allocator answers is the first free one.
use valmin.Shared.{
  ℕ, suc, ◌+◌, ◌*◌, ◌<◌, ◌≡◌, refl, sym, ap, ◌∙◌, ◌↔◌, ◌≢◌, inl, inr, Bool, true, false, not, ◌&&◌,
  ◌||◌, List, [], ◌∷◌, Option, none, some, arith, codes, text_eq, text_eq_iff, ◌==◌, In, Bool-cases,
}
use valmin.Ports.{
  PublishedPort, Container, max_port_scan, has_port, ports_of, append_ports, taken_by, Bind,
  refused, Allocation, allocated, exhausted, lookup_failed, candidate_free,
}

-- A container that runs publishes the port over UDP.
abbrev pub Publishes : ℕ → List Container → Type 0
Publishes port containers =
    (c : Container) × In c containers
    × (c.running ≡ true)
    × ((p : PublishedPort) × In p c.ports × (p.proto ≡ codes "udp") × (p.host_port ≡ port))

has_port-append :
    (port : ℕ) (xs ys : List ℕ)
    → has_port port (append_ports xs ys) ≡ (has_port port xs || has_port port ys)
has_port-append port [] ys = refl
has_port-append port (x ∷ xs) ys = ground (arith, has_port-append port xs ys)

module _ (base stride : ℕ) (listen : Bool → ℕ → Bind) (used published : List ℕ) where
  -- What the rest of the loop answers.
  abbrev Answers : ℕ → ℕ → Allocation → Type 0
  Answers left i (allocated port) =
      (k : ℕ) × (k < left)
      × (port ≡ base + (i + k) * stride)
      × (candidate_free base stride listen used published port ≡ true)
      × ((m : ℕ)
          → m < k
          → candidate_free base stride listen used published (base + (i + m) * stride) ≡ false)
  Answers left i exhausted =
      (m : ℕ)
      → m < left
      → candidate_free base stride listen used published (base + (i + m) * stride) ≡ false
  Answers left i lookup_failed = ⊥

abbrev Over : ℕ → List PublishedPort → Type 0
Over port ports = (p : PublishedPort) × In p ports × (p.proto ≡ codes "udp") × (p.host_port ≡ port)

udp : PublishedPort → Bool
udp p = text_eq p.proto (codes "udp") && not (p.host_port == 0)

has_port-Over :
    (port : ℕ) (ports : List PublishedPort)
    → has_port port (ports_of ports) ≡ true
    → Over port ports
unfolding ports_of udp
has_port-Over port [] h = cc h
has_port-Over port (q ∷ ports) h = elim (Bool-cases (udp q && q.host_port == port)) [
  | inl b ↦ (q, inl refl, ground (arith, b, text_eq_iff q.proto (codes "udp")), ground (arith, b))
  | inr b ↦ let (p, i, e, f) = has_port-Over port ports (ground (arith, h, b)) in (p, inr i, e, f)
]

Over-has_port :
    (port : ℕ) (ports : List PublishedPort)
    → port ≢ 0
    → Over port ports
    → has_port port (ports_of ports) ≡ true
unfolding ports_of
Over-has_port port [] n (p, i, e, f) = absurd i
Over-has_port port (q ∷ ports) n (p, inl j, e, f) =
    let a : text_eq q.proto (codes "udp") ≡ true =
      (text_eq_iff q.proto (codes "udp")).1 (ap (λ (x : PublishedPort). x.proto) (sym j) ∙ e) in
    let b : q.host_port ≡ port = ap (λ (x : PublishedPort). x.host_port) (sym j) ∙ f in
    ground (arith, a, b, n)
Over-has_port port (q ∷ ports) n (p, inr j, e, f) =
    ground (arith, Over-has_port port ports n (p, j, e, f))

taken_by-Publishes :
    (port : ℕ) (containers : List Container)
    → has_port port (taken_by containers) ≡ true
    → Publishes port containers
unfolding taken_by
taken_by-Publishes port [] h = cc h
taken_by-Publishes port (c ∷ containers) h =
    elim (Bool-cases (c.running && has_port port (ports_of c.ports))) [
      | inl b ↦ (c, inl refl, ground (arith, b), has_port-Over port c.ports (ground (arith, b)))
      | inr b ↦
          let (d, i, r, o) =
            taken_by-Publishes port containers (
              ground
                (arith, h, b, has_port-append port (ports_of c.ports) (taken_by containers))) in
          (d, inr i, r, o)
    ]

Publishes-taken_by :
    (port : ℕ) (containers : List Container)
    → port ≢ 0
    → Publishes port containers
    → has_port port (taken_by containers) ≡ true
unfolding taken_by
Publishes-taken_by port [] n (d, i, r, o) = absurd i
Publishes-taken_by port (c ∷ containers) n (d, inl j, r, o) =
    let a : c.running ≡ true = ap (λ (x : Container). x.running) (sym j) ∙ r in
    let b : has_port port (ports_of c.ports) ≡ true = Over-has_port port c.ports n (rw j at o) in
    ground (arith, a, b, has_port-append port (ports_of c.ports) (taken_by containers))
Publishes-taken_by port (c ∷ containers) n (d, inr j, r, o) = ground (
  arith,
  Publishes-taken_by port containers n (d, j, r, o),
  has_port-append port (ports_of c.ports) (taken_by containers),
)

-- `publishedPorts` holds exactly the ports that running containers publish over UDP, port 0, which
-- stands for none, aside.
pub taken_by_iff :
    (port : ℕ) (containers : List Container)
    → port ≢ 0
    → (has_port port (taken_by containers) ≡ true) ↔ Publishes port containers
taken_by_iff port containers n =
    (taken_by-Publishes port containers, Publishes-taken_by port containers n)

-- A base port that nothing holds, as far as the allocator can see.
pub record Free (base stride : ℕ) (listen : Bool → ℕ → Bind) (used published : List ℕ) (port : ℕ)
    : Type 0 where
  pub not_used : ¬ In port used
  pub not_published : ¬ In port published
  pub next_not_published : ¬ In (suc port) published
  pub binds :
      (family : Bool) → (listen family port ≢ refused) × (listen family (suc port) ≢ refused)

-- What `Allocate` promises: a port that it answers is free, is one of the candidates, and every
-- candidate below is taken; it finds nothing only where every candidate is taken; and it fails only
-- where one of the lookups does.
pub record FirstFree (base stride : ℕ) (listen : Bool → ℕ → Bind) (used published : List ℕ)
    (port k : ℕ) : Type 0 where
  pub in_range : k < max_port_scan
  pub stands : port ≡ base + k * stride
  pub free : Free base stride listen used published port
  pub first : (m : ℕ) → m < k → ¬ Free base stride listen used published (base + m * stride)

abbrev pub Promised :
    (base stride : ℕ) → (Bool → ℕ → Bind) → Option (List ℕ) → Option (List ℕ) → Allocation → Type 0
Promised base stride listen (some used) (some published) (allocated port) =
    (k : ℕ) × FirstFree base stride listen used published port k
Promised base stride listen (some used) (some published) exhausted =
    (m : ℕ) → m < max_port_scan → ¬ Free base stride listen used published (base + m * stride)
Promised base stride listen (some used) (some published) lookup_failed = ⊥
Promised base stride listen (some used) none r = r ≡ lookup_failed
Promised base stride listen none published r = r ≡ lookup_failed
