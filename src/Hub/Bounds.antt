-- ===== src/Hub/Bounds.antt =====
-- The bounds of a connection, and the order of its lossless frames, on every run.
use valmin.Shared.{
  ◌≤◌, ◌<◌, ◌≡◌, refl, sym, ◌⊎◌, inl, inr, Bool, true, false, List, [], ◌∷◌, Option, none, some,
  arith, Text, length, In, NoDup, Bool-cases,
}
use valmin.Topics.{Topic, Class, lossy, lossless}
use valmin.Hub.{
  Outbound, Subscription, Conn, queue_depth, max_topics, holds, find_sub, is_found, topic_eq,
}
use valmin.Hub.Writer.{next_frame, take_lossy, take_lossless, or_else}
use valmin.Hub.Subscribing.{Pending}
use valmin.Hub.Moves.{Thinned, done, keep, skip, Thinned-In, length-Thinned, keys, Moves}
use valmin.Hub.Registering.{topic_eq_iff, registered}
use valmin.Hub.Steps.{Session}

abbrev pub topics : List (Topic × Text) → List Topic
topics [] = []
topics ((t, id) ∷ ks) = t ∷ topics ks

Thinned-topics : {ys xs : List (Topic × Text)} → Thinned ys xs → Thinned (topics ys) (topics xs)
Thinned-topics done = done
Thinned-topics (keep t) = keep (Thinned-topics t)
Thinned-topics (skip t) = skip (Thinned-topics t)

Thinned-NoDup : {A : Type 0} {ys xs : List A} → Thinned ys xs → NoDup xs → NoDup ys
Thinned-NoDup done d = d
Thinned-NoDup (keep t) d = ((λ i. d.0 (Thinned-In _ t i)), Thinned-NoDup t d.1)
Thinned-NoDup (skip t) d = Thinned-NoDup t d.1

pub length-keys : (subs : List Subscription) → length (keys subs) ≡ length subs
length-keys [] = refl
length-keys (sub ∷ subs) = omega (arith, length-keys subs)

-- A connection within its bounds: at most 256 frames in each queue, and at most 64 topics, each
-- once.
pub record Within (c : Conn) : Type 0 where
  pub lossy_fits : length c.lossy_queue ≤ queue_depth
  pub lossless_fits : length c.lossless_queue ≤ queue_depth
  pub topics_fit : length c.subs ≤ max_topics
  pub once : NoDup (topics (keys c.subs))

-- The reader registers only where it has seen room.
pub record Bounded (s : Session) : Type 0 where
  pub within : Within s.conn
  pub room : (w : Pending) → s.pending ≡ some w → length s.conn.subs < max_topics

pub Moves-length : {c d : Conn} → Moves c d → length d.subs ≤ length c.subs
Moves-length {c} {d} m =
    omega (arith, length-Thinned m.thinner, length-keys c.subs, length-keys d.subs)

pub Moves-Within : {c d : Conn} → Moves c d → Within c → Within d
Moves-Within m v = record {
  lossy_fits = m.lossy_fits v.lossy_fits;
  lossless_fits = m.lossless_fits v.lossless_fits;
  topics_fit = omega (arith, Moves-length m, v.topics_fit);
  once = Thinned-NoDup (Thinned-topics m.thinner) v.once;
}

Moves-Bounded :
    (s : Session) (d : Conn) → Moves s.conn d → Bounded s → Bounded (record s { conn = d })
Moves-Bounded s d m b = record {
  within = Moves-Within m b.within;
  room = λ w e. omega (arith, Moves-length m, b.room w e);
}

absent :
    (t : Topic) (subs : List Subscription)
    → is_found (find_sub t subs) ≡ false
    → ¬ In t (topics (keys subs))
absent t [] h i = i
absent t (sub ∷ subs) h i = elim (Bool-cases (topic_eq sub.topic t)) [
  | inl e ↦ cc (rw e at h)
  | inr e ↦ elim i [
    | inl q ↦ cc ((topic_eq_iff sub.topic t).1 (sym q), e)
    | inr j ↦ absent t subs (rw e at h) j
  ]
]

pub registered-Within :
    (w : Pending) (c : Conn)
    → holds w.topic c ≡ false
    → length c.subs < max_topics
    → Within c
    → Within (registered w c)
unfolding registered
registered-Within w c h r v = record {
  lossy_fits = v.lossy_fits;
  lossless_fits = v.lossless_fits;
  topics_fit = omega (arith, r);
  once = (absent w.topic c.subs h, v.once);
}

-- A frame that the writer takes is the first of its queue, and nothing else changes.
pub record Takes (c : Conn) (k : Class) (ob : Outbound) (d : Conn) : Type 0 where
  pub lossless_front : k ≡ lossless → c.lossless_queue ≡ ob ∷ d.lossless_queue
  pub lossless_rest : k ≡ lossy → c.lossless_queue ≡ d.lossless_queue
  pub lossy_front : k ≡ lossy → c.lossy_queue ≡ ob ∷ d.lossy_queue
  pub lossy_rest : k ≡ lossless → c.lossy_queue ≡ d.lossy_queue
  pub same_subs : d.subs ≡ c.subs
  pub same_gen : d.grant_gen ≡ c.grant_gen

module _ (c : Conn) (k : Class) (ob : Outbound) (d : Conn) where
  take_lossless-Takes :
      (q : List Outbound)
      → c.lossless_queue ≡ q
      → take_lossless q c ≡ some (k, ob, d)
      → Takes c k ob d
  unfolding take_lossless
  take_lossless-Takes [] e h = cc h
  take_lossless-Takes (x ∷ q) e h = ground arith

  take_lossy-Takes :
      (q : List Outbound) → c.lossy_queue ≡ q → take_lossy q c ≡ some (k, ob, d) → Takes c k ob d
  unfolding take_lossy
  take_lossy-Takes [] e h = cc h
  take_lossy-Takes (x ∷ q) e h = ground arith

  or_else-some :
      (a b : Option (Class × Outbound × Conn))
      → or_else a b ≡ some (k, ob, d)
      → (a ≡ some (k, ob, d)) ⊎ (b ≡ some (k, ob, d))
  or_else-some none b h = inr h
  or_else-some (some x) b h = inl h

  pub next_frame-Takes : (late : Bool) → next_frame late c ≡ some (k, ob, d) → Takes c k ob d
  unfolding next_frame
  next_frame-Takes true h = elim (or_else-some _ _ h) [
    | inl a ↦ take_lossy-Takes c.lossy_queue refl a
    | inr b ↦ take_lossless-Takes c.lossless_queue refl b
  ]
  next_frame-Takes false h = elim (or_else-some _ _ h) [
    | inl a ↦ take_lossless-Takes c.lossless_queue refl a
    | inr b ↦ take_lossy-Takes c.lossy_queue refl b
  ]
