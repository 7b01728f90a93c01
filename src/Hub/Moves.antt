-- ===== src/Hub/Moves.antt =====
-- What the operations of a connection leave alone: lossless frames stay queued in their order, the
-- queues keep their bounds, and no operation but a registration adds a subscription.
use mathlib.Core.List.{append-nil, append_assoc}
use valmin.Shared.{
  ◌≤◌, ◌<◌, ◌≡◌, refl, sym, ◌∙◌, inl, inr, Bool, List, [], ◌∷◌, ◌++◌, none, some, arith, Text,
  length, length-append, In,
}
use valmin.Topics.{Topic}
use valmin.Hub.{
  Payload, Outbound, Subscription, CloseCode, Conn, queue_depth, close, is_closed, internal_error,
  offer, Offer, queued, gone, full, push_lossless, push_lossless_as, deliver_raw, deliver_raw_as,
}

-- The first list is the second with some of its elements left out.
pub data Thinned {A : Type 0} : List A → List A → Type 0 where
  done : Thinned [] []
  keep : {x : A} {ys xs : List A} → Thinned ys xs → Thinned (x ∷ ys) (x ∷ xs)
  skip : {x : A} {ys xs : List A} → Thinned ys xs → Thinned ys (x ∷ xs)

module _ {A : Type 0} where
  pub Thinned-refl : (xs : List A) → Thinned xs xs
  Thinned-refl [] = done
  Thinned-refl (x ∷ xs) = keep (Thinned-refl xs)

  pub Thinned-In : {ys xs : List A} (a : A) → Thinned ys xs → In a ys → In a xs
  Thinned-In a done i = i
  Thinned-In a (keep t) (inl e) = inl e
  Thinned-In a (keep t) (inr i) = inr (Thinned-In a t i)
  Thinned-In a (skip t) i = inr (Thinned-In a t i)

  pub length-Thinned : {ys xs : List A} → Thinned ys xs → length ys ≤ length xs
  length-Thinned done = omega arith
  length-Thinned (keep t) = omega (arith, length-Thinned t)
  length-Thinned (skip t) = omega (arith, length-Thinned t)

  pub Thinned-trans :
      {ys xs : List A} → Thinned ys xs → {zs : List A} → Thinned zs ys → Thinned zs xs
  Thinned-trans done s = s
  Thinned-trans (keep t) (keep s) = keep (Thinned-trans t s)
  Thinned-trans (keep t) (skip s) = skip (Thinned-trans t s)
  Thinned-trans (skip t) s = skip (Thinned-trans t s)

pub some_injective {ℓ} : {A : Type ℓ} (a b : A) → some a ≡ some b → a ≡ b
some_injective a b e = cc e

abbrev pub sub_key : Subscription → Topic × Text
sub_key sub = (sub.topic, sub.instance_id)

-- The topics of the subscriptions, with the instances that they hang on.
abbrev pub keys : List Subscription → List (Topic × Text)
keys [] = []
keys (sub ∷ subs) = sub_key sub ∷ keys subs

pub record Moves (c d : Conn) : Type 0 where
  pub added : List Outbound
  pub grown : d.lossless_queue ≡ c.lossless_queue ++ added
  pub lossless_fits : length c.lossless_queue ≤ queue_depth → length d.lossless_queue ≤ queue_depth
  pub lossy_fits : length c.lossy_queue ≤ queue_depth → length d.lossy_queue ≤ queue_depth
  pub thinner : Thinned (keys d.subs) (keys c.subs)
  pub later : c.grant_gen ≤ d.grant_gen

pub Moves-refl : (c : Conn) → Moves c c
Moves-refl c = record {
  added = [];
  grown = sym (append-nil c.lossless_queue);
  lossless_fits = λ h. h;
  lossy_fits = λ h. h;
  thinner = Thinned-refl (keys c.subs);
  later = omega arith;
}

pub Moves-trans : {c d e : Conn} → Moves c d → Moves d e → Moves c e
Moves-trans {c} m n = record {
  added = m.added ++ n.added;
  grown = n.grown ∙ rw m.grown (append_assoc c.lossless_queue m.added n.added);
  lossless_fits = λ h. n.lossless_fits (m.lossless_fits h);
  lossy_fits = λ h. n.lossy_fits (m.lossy_fits h);
  thinner = Thinned-trans m.thinner n.thinner;
  later = omega (arith, m.later, n.later);
}

-- A connection whose frames, flags and stamps change, but not its lossless queue.
module _ (c d : Conn) where
  pub same_queues :
      d.lossless_queue ≡ c.lossless_queue
      → (length c.lossy_queue ≤ queue_depth → length d.lossy_queue ≤ queue_depth)
      → Thinned (keys d.subs) (keys c.subs)
      → c.grant_gen ≤ d.grant_gen
      → Moves c d
  same_queues e h t g = record {
    added = [];
    grown = e ∙ sym (append-nil c.lossless_queue);
    lossless_fits = λ k. rw e k;
    lossy_fits = h;
    thinner = t;
    later = g;
  }

pub close-Moves : (code : CloseCode) (c : Conn) → Moves c (close code c)
unfolding close
close-Moves code c = same_queues c (close code c) refl (λ h. h) (Thinned-refl _) (omega arith)

pub queued_fits :
    (pick closed : Bool) (q : List Outbound) → offer pick closed q ≡ queued → length q < queue_depth
unfolding offer
queued_fits pick closed q h = ground arith

appended :
    (ob : Outbound) (c : Conn)
    → length c.lossless_queue < queue_depth
    → Moves c (record c { lossless_queue = c.lossless_queue ++ ob ∷ [] })
appended ob c h = record {
  added = ob ∷ [];
  grown = refl;
  lossless_fits = λ k. omega (arith, length-append c.lossless_queue (ob ∷ []));
  lossy_fits = λ k. k;
  thinner = Thinned-refl (keys c.subs);
  later = omega arith;
}

pub push_lossless-Moves :
    (pick : Bool) (ob : Outbound) (c : Conn) → Moves c (push_lossless pick ob c).0
unfolding push_lossless
push_lossless-Moves pick ob c =
    by_offer (offer pick (is_closed c.closed_with) c.lossless_queue) (queued_fits _ _ _)
  where
    by_offer :
        (o : Offer)
        → (o ≡ queued → length c.lossless_queue < queue_depth)
        → Moves c (push_lossless_as o ob c).0
    by_offer queued h = appended ob c (h refl)
    by_offer gone h = Moves-refl c
    by_offer full h = close-Moves internal_error c

pub deliver_raw-Moves :
    (pick : Bool) (payload : Payload) (c d : Conn) → deliver_raw pick payload c ≡ some d → Moves c d
unfolding deliver_raw
deliver_raw-Moves pick payload c d e =
    by_offer (offer pick (is_closed c.closed_with) c.lossless_queue) (queued_fits _ _ _) e
  where
    by_offer :
        (o : Offer)
        → (o ≡ queued → length c.lossless_queue < queue_depth)
        → deliver_raw_as o (record { topic = none; seq = 0; payload = payload; replay = [] }) c
          ≡ some d
        → Moves c d
    by_offer queued h k = rw (← some_injective _ d k) (appended _ c (h refl))
    by_offer gone h k = rw (← some_injective c d k) (Moves-refl c)
    by_offer full h k = cc k
