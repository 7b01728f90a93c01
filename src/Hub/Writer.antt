-- ===== src/Hub/Writer.antt =====
-- internal/ws/conn.go: writeLoop, writeFrame and gapBefore.
use valmin.Shared.{
  ℕ, suc, ◌-◌, Bool, true, false, not, ◌&&◌, List, [], ◌∷◌, Option, none, some, if◌then◌else◌, ◌==◌,
  leb, ltb,
}
use valmin.Topics.{Topic, Class, lossy, lossless, class_of}
use valmin.Hub.{Payload, gap, Message, Outbound, Conn, internal_error, close, holds, topic_eq}

abbrev pub key_eq : Option Topic → Option Topic → Bool
key_eq none none = true
key_eq none (some u) = false
key_eq (some t) none = false
key_eq (some t) (some u) = topic_eq t u

-- `last[t]`, the newest entry first.
abbrev pub last_of : Option Topic → List (Option Topic × ℕ) → Option ℕ
last_of t [] = none
last_of t ((u, seq) ∷ last) = if key_eq u t then some seq else last_of t last

abbrev pub max_int32 : ℕ
max_int32 = 2147483647

unfoldable pub gap_after : Option ℕ → Option Topic → ℕ → Option Payload
gap_after none t seq = none
gap_after (some seen) t seq =
    if leb seq (suc seen)
    then none
    else if ltb max_int32 (seq - seen - 1)
    then some (gap t max_int32 (suc seen))
    else some (gap t (seq - seen - 1) (suc seen))

-- `gapBefore`: the break to announce, and the map after it.
unfoldable pub gap_before :
    List (Option Topic × ℕ) → Outbound → Option Payload × List (Option Topic × ℕ)
unfolding gap_after
gap_before last ob =
    if ob.seq == 0
    then (none, last)
    else (gap_after (last_of ob.topic last) ob.topic ob.seq, (ob.topic, ob.seq) ∷ last)

-- The loop over a replay: what it writes, and the map after it.
unfoldable pub replay_payloads : List Message → List Payload
replay_payloads [] = []
replay_payloads (m ∷ replay) = m.payload ∷ replay_payloads replay

unfoldable pub replay_last :
    Option Topic → List Message → List (Option Topic × ℕ) → List (Option Topic × ℕ)
replay_last t [] last = last
replay_last t (m ∷ replay) last =
    replay_last t replay (if m.seq == 0 then last else (t, m.seq) ∷ last)

abbrev pub is_lossy : Class → Bool
is_lossy lossy = true
is_lossy lossless = false

-- A frame of a lossy topic that the connection does not hold any more.
unfoldable pub is_stale : Option Topic → Conn → Bool
is_stale none c = false
is_stale (some t) c = is_lossy (class_of t) && not (holds t c)

abbrev pub with_gap : Option Payload → Payload → List Payload
with_gap none payload = payload ∷ []
with_gap (some g) payload = g ∷ payload ∷ []

unfoldable pub write_live :
    Option Payload × List (Option Topic × ℕ) → Payload → List Payload × List (Option Topic × ℕ)
write_live (g, last) payload = (with_gap g payload, last)

unfoldable pub write_replay :
    Outbound → List Message → List (Option Topic × ℕ) → List Payload × List (Option Topic × ℕ)
unfolding write_live gap_before replay_payloads replay_last
write_replay ob [] last = write_live (gap_before last ob) ob.payload
write_replay ob (m ∷ replay) last =
    (replay_payloads (m ∷ replay), replay_last ob.topic (m ∷ replay) last)

-- `writeFrame`: the payloads that it hands to the socket, in order, where no write fails.
unfoldable pub write_frame :
    Conn → List (Option Topic × ℕ) → Outbound → List Payload × List (Option Topic × ℕ)
unfolding is_stale write_replay
write_frame c last ob = if is_stale ob.topic c then ([], last) else write_replay ob ob.replay last

unfoldable pub take_lossy : List Outbound → Conn → Option (Class × Outbound × Conn)
take_lossy [] c = none
take_lossy (ob ∷ q) c = some (lossy, ob, record c { lossy_queue = q })

unfoldable pub take_lossless : List Outbound → Conn → Option (Class × Outbound × Conn)
take_lossless [] c = none
take_lossless (ob ∷ q) c = some (lossless, ob, record c { lossless_queue = q })

abbrev pub or_else :
    Option (Class × Outbound × Conn)
    → Option (Class × Outbound × Conn)
    → Option (Class × Outbound × Conn)
or_else none o = o
or_else (some x) o = some x

-- One turn of `writeLoop` up to the frame, with the queue that it comes from; `none` is a writer that waits. Where `late`, the first
-- `select` found no lossless frame and the second one has taken a lossy frame, though a lossless
-- one may have come in between.
unfoldable pub next_frame : Bool → Conn → Option (Class × Outbound × Conn)
unfolding take_lossy take_lossless
next_frame late c =
    let first = take_lossless c.lossless_queue c in
    let second = take_lossy c.lossy_queue c in
    if late then or_else second first else or_else first second

-- `write` on a socket that fails.
unfoldable pub write_failed : Conn → Conn
unfolding close
write_failed c = close internal_error c
