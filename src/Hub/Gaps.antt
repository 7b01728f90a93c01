-- ===== src/Hub/Gaps.antt =====
-- internal/ws/conn.go: the breaks that a client is told of account for every message it missed.
use valmin.Shared.{
  ℕ, suc, ◌+◌, ◌-◌, ◌≤◌, ◌<◌, ◌≡◌, refl, inl, inr, Bool, true, false, List, [], ◌∷◌, ◌++◌, Option,
  some, arith, leb, length, Bool-cases,
}
use valmin.Topics.{Topic}
use valmin.Hub.{Payload, raw, pong, error_msg, subscribed, gap, Outbound, Conn, holds}
use valmin.Hub.Writer.{
  last_of, max_int32, gap_after, gap_before, is_stale, write_live, write_replay, write_frame,
}
use valmin.Hub.Registering.{topic_eq_iff}

-- The frames that the writer takes, one after the other, and what it writes for them.
abbrev pub write_frames : Conn → List (Option Topic × ℕ) → List Outbound → List Payload
write_frames c last [] = []
write_frames c last (ob ∷ obs) =
    let (payloads, next) = write_frame c last ob in payloads ++ write_frames c next obs

-- The messages that the client is told it has missed.
abbrev pub missed : List Payload → ℕ
missed [] = 0
missed (gap t dropped from_seq ∷ ps) = dropped + missed ps
missed (_ ∷ ps) = missed ps

abbrev pub is_gap : Payload → Bool
is_gap (gap t dropped from_seq) = true
is_gap _ = false

-- Live frames of one topic, with rising sequence numbers above one that was written before.
abbrev pub Rising : Topic → ℕ → List Outbound → Type 0
Rising t seen [] = Unit
Rising t seen (ob ∷ obs) =
    (ob.topic ≡ some t)
    × (ob.replay ≡ [])
    × (is_gap ob.payload ≡ false)
    × (seen < ob.seq)
    × Rising t ob.seq obs

abbrev pub final : ℕ → List Outbound → ℕ
final seen [] = seen
final seen (ob ∷ obs) = final ob.seq obs

final-Rising :
    (t : Topic) (seen : ℕ) (obs : List Outbound) → Rising t seen obs → seen ≤ final seen obs
final-Rising t seen [] r = omega arith
final-Rising t seen (ob ∷ obs) (e, n, g, l, r) = omega (arith, l, final-Rising t ob.seq obs r)

missed_other : (p : Payload) (ps : List Payload) → is_gap p ≡ false → missed (p ∷ ps) ≡ missed ps
missed_other (raw s) ps h = refl
missed_other pong ps h = refl
missed_other (error_msg s code) ps h = refl
missed_other (subscribed t seq) ps h = refl
missed_other (gap t n s) ps h = cc h

held_frame :
    (c : Conn) (t : Topic) (last : List (Option Topic × ℕ)) (ob : Outbound)
    → holds t c ≡ true
    → ob.topic ≡ some t
    → ob.replay ≡ []
    → write_frame c last ob ≡ write_live (gap_before last ob) ob.payload
unfolding write_frame is_stale write_replay
held_frame c t last ob h e n = ground arith

gap_told :
    (t : Topic) (seen : ℕ) (last : List (Option Topic × ℕ)) (ob : Outbound) (ps : List Payload)
    → last_of (some t) last ≡ some seen
    → ob.topic ≡ some t
    → is_gap ob.payload ≡ false
    → seen < ob.seq
    → ob.seq ≤ seen + max_int32
    → missed ((write_live (gap_before last ob) ob.payload).0 ++ ps) ≡ ob.seq - seen - 1 + missed ps
unfolding gap_before gap_after write_live
gap_told t seen last ob ps e f g l b = elim (Bool-cases (leb ob.seq (suc seen))) [
  | inl h ↦ ground (arith, missed_other ob.payload ps g)
  | inr h ↦ ground (arith, missed_other ob.payload ps g)
]

last_told :
    (t : Topic) (seen : ℕ) (last : List (Option Topic × ℕ)) (ob : Outbound)
    → ob.topic ≡ some t
    → seen < ob.seq
    → last_of (some t) (gap_before last ob).1 ≡ some ob.seq
unfolding gap_before
last_told t seen last ob f l = ground (arith, topic_eq_iff t t)

-- A client that holds a topic and has been sent its message number `seen` can account for every
-- number up to that of the last frame: those that it receives, and those that the breaks between
-- them count. The frames are the topic's live ones in the order of the source, with any number of
-- them dropped in between, short of the cap of 2^31 - 1 on a count.
pub write_frames-accounted :
    (c : Conn) (t : Topic) (seen : ℕ) (last : List (Option Topic × ℕ)) (obs : List Outbound)
    → holds t c ≡ true
    → last_of (some t) last ≡ some seen
    → Rising t seen obs
    → final seen obs ≤ seen + max_int32
    → seen + length obs + missed (write_frames c last obs) ≡ final seen obs
unfolding write_live
write_frames-accounted c t seen last [] h e r b = omega arith
write_frames-accounted c t seen last (ob ∷ obs) h e (f, n, g, l, r) b =
    rw (held_frame c t last ob h f n) (
      omega (
        arith,
        l,
        final-Rising t ob.seq obs r,
        gap_told t seen last ob (write_frames c (gap_before last ob).1 obs) e f g l
            (omega (arith, b, final-Rising t ob.seq obs r)),
        write_frames-accounted c t ob.seq (gap_before last ob).1 obs h
            (last_told t seen last ob f l) r (omega (arith, b, l)),
      ))
