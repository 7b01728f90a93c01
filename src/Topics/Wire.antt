-- ===== src/Topics/Wire.antt =====
-- Parsing and printing topics are inverse.
use valmin.Shared.{
  ℕ, ◌≡◌, refl, ◌∙◌, ◌↔◌, inl, inr, ◌≢◌, true, ◌&&◌, List, [], ◌∷◌, ◌++◌, some, arith, Text, codes,
  text_eq, text_eq_iff, split, join, join-split, Lacks, Bool-cases, Option-cases, &&_both,
}
use valmin.Topics.{
  TopicKind, kind_console, kind_stats, kind_state, kind_job, Topic, wire, id_chars, valid_id,
  kind_named, parse_parts, parse,
}

id_chars-Lacks : (s : Text) → id_chars s ≡ true → Lacks b'.' s
id_chars-Lacks [] h = tt
id_chars-Lacks (c ∷ s) h = ((λ e. ground (arith, h, e)), id_chars-Lacks s (ground (arith, h)))

valid_id-Lacks : (s : Text) → valid_id s ≡ true → Lacks b'.' s
unfolding valid_id
valid_id-Lacks [] h = tt
valid_id-Lacks (c ∷ s) h = id_chars-Lacks (c ∷ s) (ground (arith, h))

split-Lacks : (s : Text) (sep : ℕ) → Lacks sep s → split s sep ≡ s ∷ []
split-Lacks [] sep h = refl
split-Lacks (c ∷ s) sep h = ground (arith, split-Lacks s sep h.1, h.0)

split-append : (s r : Text) (sep : ℕ) → Lacks sep s → split (s ++ sep ∷ r) sep ≡ s ∷ split r sep
split-append [] r sep h = ground arith
split-append (c ∷ s) r sep h = ground (arith, split-append s r sep h.1, h.0)

parse-wire : (t : Topic) → valid_id t.id ≡ true → parse (wire t) ≡ some t
unfolding parse wire
parse-wire t h = by_kind t.kind t.id h
  where
    by_kind :
        (kind : TopicKind) (id : Text)
        → valid_id id ≡ true
        → parse (wire (record { kind = kind; id = id })) ≡ some (record { kind = kind; id = id })
    by_kind kind_console id h =
        rw (split-append id (codes "console") b'.' (valid_id-Lacks id h), h) refl
    by_kind kind_stats id h =
        rw (split-append id (codes "stats") b'.' (valid_id-Lacks id h), h) refl
    by_kind kind_state id h =
        rw (split-append id (codes "state") b'.' (valid_id-Lacks id h), h) refl
    by_kind kind_job id h = rw (split-Lacks id b'.' (valid_id-Lacks id h), h) refl

abbrev kind_text : TopicKind → Text
kind_text kind_console = codes "console"
kind_text kind_stats = codes "stats"
kind_text kind_state = codes "state"
kind_text kind_job = []

kind_named-text :
    (last : Text) (k : TopicKind) → kind_named last ≡ some k → (last ≡ kind_text k) × (k ≢ kind_job)
unfolding kind_named
kind_named-text last k h = elim (Bool-cases (text_eq last (codes "console"))) [
  | inl e ↦
      let q : kind_console ≡ k = cc (rw e at h) in
      rw (← q) ((text_eq_iff last (codes "console")).0 e, λ p. cc p)
  | inr e ↦ elim (Bool-cases (text_eq last (codes "stats"))) [
    | inl f ↦
        let q : kind_stats ≡ k = cc (rw (e, f) at h) in
        rw (← q) ((text_eq_iff last (codes "stats")).0 f, λ p. cc p)
    | inr f ↦ elim (Bool-cases (text_eq last (codes "state"))) [
      | inl g ↦
          let q : kind_state ≡ k = cc (rw (e, f, g) at h) in
          rw (← q) ((text_eq_iff last (codes "state")).0 g, λ p. cc p)
      | inr g ↦ cc (rw (e, f, g) at h)
    ]
  ]
]

wire-instance :
    (k : TopicKind) (id : Text)
    → k ≢ kind_job
    → wire (record { kind = k; id = id }) ≡ codes "instance." ++ id ++ b'.' ∷ kind_text k
unfolding wire
wire-instance kind_console id n = refl
wire-instance kind_stats id n = refl
wire-instance kind_state id n = refl
wire-instance kind_job id n = absurd (n refl)

parts-wire :
    (ps : List Text) (t : Topic)
    → parse_parts ps ≡ some t
    → (valid_id t.id ≡ true) × (wire t ≡ join ps b'.')
unfolding parse_parts wire
parts-wire [] t h = cc h
parts-wire (a ∷ []) t h = cc h
parts-wire (a ∷ b ∷ []) t h = elim (Bool-cases (text_eq a (codes "job") && valid_id b)) [
  | inr e ↦ cc (rw e at h)
  | inl e ↦
      let q : record { kind = kind_job; id = b } ≡ t = cc (rw e at h) in
      let (x, y) = &&_both (text_eq a (codes "job")) (valid_id b) e in
      rw (← q, (text_eq_iff a (codes "job")).0 x) (y, refl)
]
parts-wire (a ∷ b ∷ c ∷ []) t h = elim (Bool-cases (text_eq a (codes "instance") && valid_id b)) [
  | inr e ↦ cc (rw e at h)
  | inl e ↦ elim (Option-cases (kind_named c)) [
    | inl f ↦ cc (rw (e, f) at h)
    | inr (k, f) ↦
        let q : record { kind = k; id = b } ≡ t = cc (rw (e, f) at h) in
        let (x, y) = &&_both (text_eq a (codes "instance")) (valid_id b) e in
        let (z, n) = kind_named-text c k f in
        rw (← q, (text_eq_iff a (codes "instance")).0 x, z) (y, wire-instance k b n)
  ]
]
parts-wire (a ∷ b ∷ c ∷ d ∷ ps) t h = cc h

wire-parse : (s : Text) (t : Topic) → parse s ≡ some t → (valid_id t.id ≡ true) × (wire t ≡ s)
unfolding parse
wire-parse s t h = let (v, e) = parts-wire (split s b'.') t h in (v, e ∙ join-split s b'.')

-- A text names a topic exactly if it is the wire form of that topic, whose id is then a valid one:
-- nothing is lost on the wire, and no two texts name one topic.
pub parse_iff : (s : Text) (t : Topic) → (parse s ≡ some t) ↔ (valid_id t.id ≡ true) × (wire t ≡ s)
parse_iff s t = (wire-parse s t, λ (v, e). rw (← e) (parse-wire t v))
