-- ===== src/Hub/Moved.antt =====
-- The operations of a connection, each a move.
use valmin.Shared.{
  ℕ, suc, ◌≤◌, ◌<◌, ◌≡◌, refl, inl, inr, Bool, not, ◌&&◌, List, [], ◌∷◌, Option, none, some, arith,
  ◌==◌, leb, length, length-append, Bool-cases,
}
use valmin.Topics.{Topic, Class, lossy, lossless, class_of}
use valmin.Hub.{
  Payload, Message, Outbound, Subscription, Conn, queue_depth, Offer, queued, gone, full,
  internal_error, push_lossy, push_lossy_as, push, push_class, deliver, holds, topic_eq, find_sub,
  stuck_too_long, append_if_room, drop_oldest,
}
use valmin.Hub.Subscribing.{drop, without, set_replayed, bump_next, send_live, send_held, is_lossy}
use valmin.Hub.Moves.{
  Thinned, done, keep, skip, Thinned-refl, keys, Moves, Moves-refl, Moves-trans, same_queues,
  close-Moves, queued_fits, push_lossless-Moves,
}

append_if_room_fits :
    (q : List Outbound) (ob : Outbound)
    → length q ≤ queue_depth
    → length (append_if_room q ob) ≤ queue_depth
append_if_room_fits q ob h = ground (arith, length-append q (ob ∷ []))

drop_oldest_fits :
    (q : List Outbound) → length q ≤ queue_depth → length (drop_oldest q) ≤ queue_depth
drop_oldest_fits [] h = h
drop_oldest_fits (ob ∷ q) h = omega arith

module _ (now : ℕ) (ob : Outbound) (c : Conn) where
  push_full-Moves : Moves c (push_lossy_as full now ob c).0
  unfolding push_lossy_as
  push_full-Moves = elim (Bool-cases (stuck_too_long now c.stuck_since)) [
    | inl e ↦ rw e (close-Moves internal_error c)
    | inr e ↦ rw e (
        same_queues c _ refl (λ h. append_if_room_fits _ ob (drop_oldest_fits c.lossy_queue h))
          (Thinned-refl _) (omega arith))
  ]

  push_lossy_as-Moves :
      (o : Offer)
      → (o ≡ queued → length c.lossy_queue < queue_depth)
      → Moves c (push_lossy_as o now ob c).0
  unfolding push_lossy_as
  push_lossy_as-Moves queued h =
      let room : length c.lossy_queue < queue_depth = h refl in
      same_queues c _ refl (λ k. omega (arith, room, length-append c.lossy_queue (ob ∷ [])))
        (Thinned-refl _) (omega arith)
  push_lossy_as-Moves gone h = Moves-refl c
  push_lossy_as-Moves full h = push_full-Moves

pub push_lossy-Moves :
    (pick : Bool) (now : ℕ) (ob : Outbound) (c : Conn) → Moves c (push_lossy pick now ob c).0
unfolding push_lossy
push_lossy-Moves pick now ob c = push_lossy_as-Moves now ob c _ (queued_fits _ _ _)

push_class-Moves :
    (k : Class) (pick : Bool) (now : ℕ) (ob : Outbound) (c : Conn)
    → Moves c (push_class k pick now ob c).0
push_class-Moves lossless pick now ob c = push_lossless-Moves pick ob c
push_class-Moves lossy pick now ob c = push_lossy-Moves pick now ob c

pub push-Moves :
    (pick : Bool) (now : ℕ) (t : Topic) (seq : ℕ) (payload : Payload) (c : Conn)
    → Moves c (push pick now t seq payload c).0
unfolding push
push-Moves pick now t seq payload c = push_class-Moves (class_of t) pick now _ c

pub deliver-Moves :
    (pick : Bool) (now : ℕ) (t : Topic) (m : Message) (c : Conn) → Moves c (deliver pick now t m c)
unfolding deliver
deliver-Moves pick now t m c = elim (Bool-cases (holds t c)) [
  | inl e ↦ rw e (push-Moves pick now t m.seq m.payload c)
  | inr e ↦ rw e (Moves-refl c)
]

pub without-Thinned :
    (t : Topic) (subs : List Subscription) → Thinned (keys (without t subs)) (keys subs)
unfolding without
without-Thinned t [] = done
without-Thinned t (sub ∷ subs) = elim (Bool-cases (topic_eq sub.topic t)) [
  | inl e ↦ rw e (skip (without-Thinned t subs))
  | inr e ↦ rw e (keep (without-Thinned t subs))
]

pub keys-set_replayed :
    (t : Topic) (seq : ℕ) (subs : List Subscription) → keys (set_replayed t seq subs) ≡ keys subs
unfolding set_replayed
keys-set_replayed t seq [] = refl
keys-set_replayed t seq (sub ∷ subs) = ground (arith, keys-set_replayed t seq subs)

keys-bump_next : (t : Topic) (subs : List Subscription) → keys (bump_next t subs) ≡ keys subs
unfolding bump_next
keys-bump_next t [] = refl
keys-bump_next t (sub ∷ subs) = ground (arith, keys-bump_next t subs)

pub with_subs :
    (c : Conn) (subs : List Subscription)
    → Thinned (keys subs) (keys c.subs)
    → Moves c (record c { subs = subs })
with_subs c subs t = same_queues c (record c { subs = subs }) refl (λ h. h) t (omega arith)

pub drop-Moves : (t : Topic) (c : Conn) → Moves c (drop t c)
unfolding drop
drop-Moves t c = with_subs c (without t c.subs) (without-Thinned t c.subs)

pub send_live-Moves :
    (pick : Bool) (now : ℕ) (t : Topic) (m : Message) (c : Conn)
    → Moves c (send_live pick now t m c)
unfolding send_live
send_live-Moves pick now t m c = by_sub (find_sub t c.subs)
  where
    bumped : Moves c (record c { subs = bump_next t c.subs })
    bumped =
        with_subs c (bump_next t c.subs) (rw (keys-bump_next t c.subs) (Thinned-refl (keys c.subs)))

    by_sub : (o : Option Subscription) → Moves c (send_held pick now t o m c)
    by_sub none = Moves-refl c
    by_sub (some sub) = elim (Bool-cases (not (m.seq == 0) && leb m.seq sub.replayed)) [
      | inl e ↦ rw e (Moves-refl c)
      | inr e ↦ elim (Bool-cases (m.seq == 0 && is_lossy (class_of t))) [
        | inl f ↦
            rw (e, f) (Moves-trans bumped (push-Moves pick now t (suc sub.next_seq) m.payload _))
        | inr f ↦ rw (e, f) (push-Moves pick now t m.seq m.payload c)
      ]
    ]
