-- ===== src/Hub/Runs.antt =====
-- A connection on every run: its bounds, and the order of its lossless frames.
use mathlib.Core.List.{append-nil, append_assoc}
use valmin.Shared.{◌≡◌, refl, sym, ap, ◌∙◌, List, [], ◌∷◌, ◌++◌, arith, length}
use valmin.Topics.{Class, lossy, lossless}
use valmin.Hub.{Outbound, Conn}
use valmin.Hub.Subscribing.{Panel, Pending}
use valmin.Hub.Moves.{Moves}
use valmin.Hub.Registering.{registered}
use valmin.Hub.Steps.{Session, new_session, log_lossless, Run, here, next}
use valmin.Hub.Bounds.{Takes, Within, Bounded, Moves-Within, Moves-length, registered-Within}
use valmin.Hub.Seen.{Seen, moved, began, added, ended, took, Step-Seen}

Takes-Within :
    (c : Conn) (k : Class) (ob : Outbound) (d : Conn) → Takes c k ob d → Within c → Within d
Takes-Within c lossless ob d t v = record {
  lossy_fits = rw (← t.lossy_rest refl) v.lossy_fits;
  lossless_fits = omega (arith, v.lossless_fits, ap length (t.lossless_front refl));
  topics_fit = rw t.same_subs v.topics_fit;
  once = rw t.same_subs v.once;
}
Takes-Within c lossy ob d t v = record {
  lossy_fits = omega (arith, v.lossy_fits, ap length (t.lossy_front refl));
  lossless_fits = rw (← t.lossless_rest refl) v.lossless_fits;
  topics_fit = rw t.same_subs v.topics_fit;
  once = rw t.same_subs v.once;
}

Seen-Bounded : (p : Panel) (s t : Session) → Seen p s t → Bounded s → Bounded t
Seen-Bounded p s t (moved m l e) b = record {
  within = Moves-Within m b.within;
  room = λ w f. omega (arith, Moves-length m, b.room w (sym e ∙ f));
}
Seen-Bounded p s t (began w m l e c f) b = record {
  within = Moves-Within m b.within;
  room = λ x g. omega (arith, Moves-length m, f.room);
}
Seen-Bounded p s t (added w l e f h m g) b = record {
  within = Moves-Within m (registered-Within w s.conn h (b.room w e) b.within);
  room = λ x g. cc (f, g);
}
Seen-Bounded p s t (ended m l e) b = record {
  within = Moves-Within m b.within;
  room = λ x g. cc (e, g);
}
Seen-Bounded p s t (took k ob a l e) b = record {
  within = Takes-Within s.conn k ob t.conn a b.within;
  room = λ w f. rw a.same_subs (b.room w (sym e ∙ f));
}

new_session-Bounded : Bounded new_session
new_session-Bounded = record {
  within = record {
    lossy_fits = omega arith;
    lossless_fits = omega arith;
    topics_fit = omega arith;
    once = tt;
  };
  room = λ w e. cc e;
}

-- What the panel answers to a connection's questions is fixed. Whatever steps the connection then
-- goes through from its first moment on, its lossy and its lossless queue hold at most 256 frames
-- each, and it holds at most 64 topics, each of them once.
pub Run-Within : (p : Panel) (s : Session) → Run p new_session s → Within s.conn
Run-Within p s r = (Run-Bounded r).within
  where
    Run-Bounded : {t : Session} → Run p new_session t → Bounded t
    Run-Bounded here = new_session-Bounded
    Run-Bounded (next q st) = Seen-Bounded p _ _ (Step-Seen p st) (Run-Bounded q)

-- The lossless frames of a session, those taken and those that wait.
abbrev pub lossless_frames : Session → List Outbound
lossless_frames s = s.taken_lossless ++ s.conn.lossless_queue

Moves-frames :
    (s t : Session)
    → Moves s.conn t.conn
    → t.taken_lossless ≡ s.taken_lossless
    → (more : List Outbound) × (lossless_frames t ≡ lossless_frames s ++ more)
Moves-frames s t m e =
    (m.added, rw (e, m.grown) (sym (append_assoc s.taken_lossless s.conn.lossless_queue m.added)))

unfoldable registered-queue :
    (w : Pending) (c : Conn) → (registered w c).lossless_queue ≡ c.lossless_queue
unfolding registered
registered-queue w c = refl

took-frames :
    (s t : Session) (k : Class) (ob : Outbound)
    → Takes s.conn k ob t.conn
    → t.taken_lossless ≡ log_lossless k ob s.taken_lossless
    → lossless_frames t ≡ lossless_frames s
took-frames s t lossless ob a e =
    rw (e, a.lossless_front refl) (append_assoc s.taken_lossless (ob ∷ []) t.conn.lossless_queue)
took-frames s t lossy ob a e = rw (e, a.lossless_rest refl) refl

Seen-frames :
    (p : Panel) (s t : Session)
    → Seen p s t
    → (more : List Outbound) × (lossless_frames t ≡ lossless_frames s ++ more)
Seen-frames p s t (moved m l e) = Moves-frames s t m l
Seen-frames p s t (began w m l e c f) = Moves-frames s t m l
Seen-frames p s t (added w l e f h m g) = (
  m.added,
  rw (l, m.grown, registered-queue w s.conn)
      (sym (append_assoc s.taken_lossless s.conn.lossless_queue m.added)),
)
Seen-frames p s t (ended m l e) = Moves-frames s t m l
Seen-frames p s t (took k ob a l e) = ([], took-frames s t k ob a l ∙ sym (append-nil _))

-- From any moment of a connection on, what its writer has taken from the lossless queue, followed
-- by what still waits there, begins with what it had taken and what waited at that moment: no
-- lossless frame that was accepted is dropped, overtaken or taken twice by any later step.
pub Run-in_order :
    (p : Panel) (s t : Session)
    → Run p s t
    → (more : List Outbound) × (lossless_frames t ≡ lossless_frames s ++ more)
Run-in_order p s t here = ([], sym (append-nil _))
Run-in_order p s t (next {t = q} r st) =
    let (a, e) = Run-in_order p s q r in
    let (b, f) = Seen-frames p q t (Step-Seen p st) in
    (a ++ b, f ∙ rw e (append_assoc (lossless_frames s) a b))
