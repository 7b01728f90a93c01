-- ===== src/Hub/Samples.antt =====
-- The event hub at concrete connections.
use valmin.Shared.{
  ℕ, ◌+◌, ◌≡◌, refl, ap, inl, true, false, List, [], ◌∷◌, ◌++◌, Option, none, some, arith, codes,
  suc, Bool, ◌≤◌, length,
}
use valmin.Topics.{Topic, kind_console, lossless, wire}
use valmin.Hub.{
  raw, error_msg, forbidden, CloseCode, policy_violation, Outbound, Conn, new_conn, deliver_raw,
  pong,
}
use valmin.Hub.Moves.{some_injective}
use valmin.Hub.Writer.{next_frame}
use valmin.Hub.Subscribing.{Panel, recheck, authorize}
use valmin.Hub.Steps.{Session, new_session, after_write, here, next, tells, writes}
use valmin.Hub.Bounds.{Within}
use valmin.Hub.Runs.{Run-Within, lossless_frames, Run-in_order}
use valmin.Hub.Granted.{recheck-Run}
use valmin.Hub.Revoked.{Allowed}
use valmin.Hub.Gaps.{write_frames, missed, write_frames-accounted}
use valmin.Hub.Registry.{Client, Hub, Tally, tally_of, of_session, of_user, no_tally, add}
use valmin.Hub.Caps.{open_among}
use valmin.Hub.Capped.{Capped}
use valmin.Hub.Admission.{add-Capped, add-lingering}

abbrev console : Topic
console = record { kind = kind_console; id = codes "i" }

abbrev deny : Panel
deny = record {
  instance_exists = λ id. some true;
  job_instance = λ id. none;
  can = λ a id. false;
  replay_of = λ t. none;
}

abbrev one_sub : Conn
one_sub = record new_conn {
  subs = record { topic = console; instance_id = codes "i"; replayed = 0; next_seq = 0 } ∷ [];
}

abbrev waiting_pong : Conn
waiting_pong = record new_conn {
  lossless_queue = record { topic = none; seq = 0; payload = pong; replay = [] } ∷ [];
}

ponged : deliver_raw true pong new_conn ≡ some waiting_pong
unfolding deliver_raw
ponged = refl

Run-Within_example : Within waiting_pong
Run-Within_example =
    Run-Within deny (record new_session { conn = waiting_pong })
      (next here (tells new_session true pong waiting_pong ponged))

abbrev pong_frame : Outbound
pong_frame = record { topic = none; seq = 0; payload = pong; replay = [] }

abbrev waiting : Session
waiting = record new_session { conn = waiting_pong }

pong_taken : next_frame false waiting_pong ≡ some (lossless, pong_frame, new_conn)
unfolding next_frame
pong_taken = refl

Run-in_order_example :
    (more : List Outbound) × (lossless_frames (after_write waiting lossless pong_frame new_conn)
      ≡ lossless_frames waiting ++ more)
Run-in_order_example =
    Run-in_order deny waiting (after_write waiting lossless pong_frame new_conn)
      (next here (writes waiting false lossless pong_frame new_conn pong_taken))

abbrev denied : Conn
denied = record new_conn {
  lossless_queue =
      record {
        topic = none;
        seq = 0;
        payload = error_msg (codes "instance.i.console") forbidden;
        replay = [];
      }
      ∷ [];
  grant_gen = 1;
}

rechecked : recheck deny true (codes "i") one_sub ≡ some denied
unfolding recheck wire deliver_raw
rechecked = refl

-- A subscription that was authorized before the recheck.
abbrev raced : Session
raced = record new_session {
  conn = one_sub;
  pending = some (record { topic = console; instance_id = codes "i"; gen = 0 });
}

denied_now : authorize deny console ≡ none
unfolding authorize
denied_now = refl

recheck-Run_example : Allowed deny (codes "i") denied
recheck-Run_example =
    recheck-Run deny true (codes "i") raced (record raced { conn = denied }) denied rechecked
      (λ w e. rw (← some_injective _ w e) (omega arith, inl denied_now)) here

abbrev line_frame : ℕ → Outbound
line_frame seq = record {
  topic = some console;
  seq = seq;
  payload = raw (codes "line");
  replay = [];
}

write_frames-accounted_example :
    2
      + 2
      + missed (write_frames one_sub ((some console, 2) ∷ []) (line_frame 3 ∷ line_frame 9 ∷ []))
    ≡ 9
write_frames-accounted_example =
    write_frames-accounted one_sub console 2 ((some console, 2) ∷ [])
      (line_frame 3 ∷ line_frame 9 ∷ []) refl refl
      (refl, refl, refl, omega arith, (refl, refl, refl, omega arith, tt)) (omega arith)

abbrev client : ℕ → Option CloseCode → Client
client number code = record {
  number = number;
  user_id = codes "ann";
  session_id = codes "s";
  connected_at = number;
  closed_with = code;
}

-- A session that has as many open connections as it may.
abbrev full_session : List Client
full_session =
    client 8 none
    ∷ client 7 none
    ∷ client 6 none
    ∷ client 5 none
    ∷ client 4 none
    ∷ client 3 none
    ∷ client 2 none
    ∷ client 1 none
    ∷ []

abbrev full_hub : Hub
full_hub = record { conns = full_session; closed = false }

-- No more connections are open than there are.
open_among-le-length :
    (counts : Client → Bool) (conns : List Client) → open_among counts conns ≤ length conns
open_among-le-length counts [] = omega arith
open_among-le-length counts (c ∷ conns) = ground (arith, open_among-le-length counts conns)

-- The ninth connection of the session is registered, and the oldest one is closed for it.
add-Capped_example : Capped (add (client 9 none) full_hub).0.conns
add-Capped_example = add-Capped (client 9 none) full_hub refl refl (ground arith) (
  (λ user session. open_among-le-length (of_session user session) full_session),
  (λ user. omega (arith, open_among-le-length (of_user user) full_session)),
)

-- Nine connections of a session, the oldest of them closed and not yet removed.
abbrev crowded : Hub
crowded = record {
  conns =
      client 9 none
      ∷ client 8 none
      ∷ client 7 none
      ∷ client 6 none
      ∷ client 5 none
      ∷ client 4 none
      ∷ client 3 none
      ∷ client 2 none
      ∷ client 1 (some policy_violation)
      ∷ [];
  closed = false;
}

oldest_closed :
    (tally_of (of_session (codes "ann") (codes "s")) (client 10 none ∷ crowded.conns) no_tally)
    ≡ record { n = 10; oldest = some (client 1 (some policy_violation)) }
unfolding tally_of
oldest_closed = refl

add-lingering_example :
    open_among (of_session (codes "ann") (codes "s")) (add (client 10 none) crowded).0.conns
    ≡ suc (open_among (of_session (codes "ann") (codes "s")) crowded.conns)
add-lingering_example =
    add-lingering (client 10 none) crowded (client 1 (some policy_violation)) refl refl
      (ap (λ (t : Tally). t.oldest) oldest_closed) (rw oldest_closed (omega arith))
      (λ x i e. ground (arith, i, e))
