-- ===== src/Hub/Seen.antt =====
-- The steps of a connection, by what they do to it.
use valmin.Shared.{◌≡◌, refl, ◌≢◌, ◌⊎◌, inl, inr, false, none, some}
use valmin.Topics.{Class}
use valmin.Hub.{Outbound, holds, internal_error}
use valmin.Hub.Writer.{write_failed}
use valmin.Hub.Subscribing.{Panel, Pending, authorize}
use valmin.Hub.Moves.{Moves, Moves-refl, close-Moves, deliver_raw-Moves}
use valmin.Hub.Moved.{deliver-Moves, send_live-Moves}
use valmin.Hub.Ended.{
  drop_instance-Moves, recheck-Moves, unsubscribe-Moves, unsubscribe_all-Moves, command-Moves,
}
use valmin.Hub.Registering.{Fresh, begin-Moves, begin-Fresh, registered, register-cases}
use valmin.Hub.Steps.{
  Session, log_lossless, after_write, Step, begins, answers, registers, unsubscribes, commands,
  tells, leaves, rechecks, deletes, publishes, sends, closes, fails, writes,
}
use valmin.Hub.Bounds.{Takes, next_frame-Takes}

pub data Seen (p : Panel) (s t : Session) : Type 0 where
  moved :
      Moves s.conn t.conn → t.taken_lossless ≡ s.taken_lossless → t.pending ≡ s.pending → Seen p s t
  began :
      (w : Pending)
      → Moves s.conn t.conn
      → t.taken_lossless ≡ s.taken_lossless
      → t.pending ≡ some w
      → t.conn ≡ s.conn
      → Fresh p s.conn w
      → Seen p s t
  added :
      (w : Pending)
      → t.taken_lossless ≡ s.taken_lossless
      → s.pending ≡ some w
      → t.pending ≡ none
      → holds w.topic s.conn ≡ false
      → Moves (registered w s.conn) t.conn
      → (s.conn.grant_gen ≡ w.gen) ⊎ (authorize p w.topic ≢ none)
      → Seen p s t
  ended : Moves s.conn t.conn → t.taken_lossless ≡ s.taken_lossless → t.pending ≡ none → Seen p s t
  took :
      (k : Class) (ob : Outbound)
      → Takes s.conn k ob t.conn
      → t.taken_lossless ≡ log_lossless k ob s.taken_lossless
      → t.pending ≡ s.pending
      → Seen p s t

pub Step-Seen : (p : Panel) {s t : Session} → Step p s t → Seen p s t
unfolding after_write write_failed
Step-Seen p (begins s pick text w n e) =
    began w (Moves-refl s.conn) refl refl refl (begin-Fresh p pick text s.conn w e)
Step-Seen p (answers s pick text c e) = moved (begin-Moves p pick text s.conn c e) refl refl
Step-Seen p (registers s pick text w c n e) = elim (register-cases p pick text w s.conn c e) [
  | inl m ↦ ended m refl refl
  | inr (h, m, g) ↦ added w refl n refl h m g
]
Step-Seen p (unsubscribes s pick text c e) =
    moved (unsubscribe-Moves pick text s.conn c e) refl refl
Step-Seen p (commands s pick id c e) = moved (command-Moves p pick id s.conn c e) refl refl
Step-Seen p (tells s pick payload c e) = moved (deliver_raw-Moves pick payload s.conn c e) refl refl
Step-Seen p (leaves s) = moved (unsubscribe_all-Moves s.conn) refl refl
Step-Seen p (rechecks s pick id c e) = moved (recheck-Moves p pick id s.conn c e) refl refl
Step-Seen p (deletes s pick id code c e) =
    moved (drop_instance-Moves pick id code s.conn c e) refl refl
Step-Seen p (publishes s pick now t m) = moved (deliver-Moves pick now t m s.conn) refl refl
Step-Seen p (sends s pick now t m) = moved (send_live-Moves pick now t m s.conn) refl refl
Step-Seen p (closes s code) = moved (close-Moves code s.conn) refl refl
Step-Seen p (fails s) = moved (close-Moves internal_error s.conn) refl refl
Step-Seen p (writes s late k ob c e) = took k ob (next_frame-Takes s.conn k ob c late e) refl refl
