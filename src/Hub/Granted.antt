-- ===== src/Hub/Granted.antt =====
-- Revocation on every run: no denied subscription outlives the recheck of its instance.
use valmin.Shared.{
  ◌≤◌, ◌<◌, ◌≡◌, sym, ap, ◌∙◌, ◌⊎◌, ◌≢◌, inl, inr, Bool, true, none, some, arith, Text,
}
use valmin.Topics.{Topic, action_of}
use valmin.Hub.{Conn}
use valmin.Hub.Subscribing.{Panel, Pending, authorize, affected, recheck}
use valmin.Hub.Moves.{Thinned-In, Moves, some_injective}
use valmin.Hub.Ended.{recheck_each-Moves, count_recheck}
use valmin.Hub.Registering.{authorize-can, registered}
use valmin.Hub.Steps.{Session, Run, here, next}
use valmin.Hub.Seen.{Seen, moved, began, added, ended, took, Step-Seen}
use valmin.Hub.Revoked.{Allowed, recheck-Allowed}

-- The panel resolves the topic of the subscription to the instance that it hangs on, if it
-- authorizes it at all.
abbrev pub Resolves : Panel → Pending → Type 0
Resolves p w = (authorize p w.topic ≡ none) ⊎ (authorize p w.topic ≡ some w.instance_id)

-- A subscription that is about to be registered is allowed, or was authorized before the newest
-- recheck.
abbrev Waits : Panel → Text → Conn → Pending → Type 0
Waits p id c w =
    w.instance_id ≡ id
    → (p.can (action_of w.topic) id ≡ true) ⊎ (w.gen < c.grant_gen) × Resolves p w

record Guarded (p : Panel) (id : Text) (s : Session) : Type 0 where
  pub allowed : Allowed p id s.conn
  pub waiting : (w : Pending) → s.pending ≡ some w → Waits p id s.conn w

module _ (p : Panel) (id : Text) where
  Moves-Allowed : {c d : Conn} → Moves c d → Allowed p id c → Allowed p id d
  Moves-Allowed m a t i = a t (Thinned-In (t, id) m.thinner i)

  Moves-Waits : {c d : Conn} (w : Pending) → Moves c d → Waits p id c w → Waits p id d w
  Moves-Waits w m h e = elim (h e) [
    | inl k ↦ inl k
    | inr (g, r) ↦ inr (omega (arith, g, m.later), r)
  ]

  registered-Allowed :
      (w : Pending) (c : Conn)
      → Waits p id c w
      → (c.grant_gen ≡ w.gen) ⊎ (authorize p w.topic ≢ none)
      → Allowed p id c
      → Allowed p id (registered w c)
  unfolding registered
  registered-Allowed w c h g a t (inr i) = a t i
  registered-Allowed w c h g a t (inl e) =
      let topic : t ≡ w.topic = ap (λ (x : Topic × Text). x.0) e in
      let same : w.instance_id ≡ id = sym (ap (λ (x : Topic × Text). x.1) e) in
      rw topic (elim (h same) [
        | inl k ↦ k
        | inr (l, inl n) ↦ elim g [ inl q ↦ absurd (omega (arith, q, l)) | inr x ↦ absurd (x n) ]
        | inr (l, inr n) ↦ authorize-can p w.topic id (rw (← same) n)
      ])

  Seen-Guarded : (s t : Session) → Seen p s t → Guarded p id s → Guarded p id t
  Seen-Guarded s t (moved m l e) g = record {
    allowed = Moves-Allowed m g.allowed;
    waiting = λ w f. Moves-Waits w m (g.waiting w (sym e ∙ f));
  }
  Seen-Guarded s t (began w m l e c f) g = record {
    allowed = Moves-Allowed m g.allowed;
    waiting = λ x q k.
        let same : w ≡ x = some_injective w x (sym e ∙ q) in
        inl (authorize-can p x.topic id (rw (← k, ← same) f.resolved));
  }
  Seen-Guarded s t (added w l e f h m x) g = record {
    allowed = Moves-Allowed m (registered-Allowed w s.conn (g.waiting w e) x g.allowed);
    waiting = λ y q. cc (f, q);
  }
  Seen-Guarded s t (ended m l e) g = record {
    allowed = Moves-Allowed m g.allowed;
    waiting = λ y q. cc (e, q);
  }
  Seen-Guarded s t (took k ob a l e) g = record {
    allowed = rw a.same_subs g.allowed;
    waiting = λ w f. rw a.same_gen (g.waiting w (sym e ∙ f));
  }

  Run-Guarded : {s t : Session} → Run p s t → Guarded p id s → Guarded p id t
  Run-Guarded here g = g
  Run-Guarded (next r st) g = Seen-Guarded _ _ (Step-Seen p st) (Run-Guarded r g)

-- After a change of grants, once the connection has been rechecked for the instance under the
-- grants as they are now, every subscription on that instance is one that the panel now allows,
-- whatever happens to the connection afterwards. It may have held any subscriptions before, and
-- have had one authorized under the old grants and not yet registered, provided that the topic of
-- that one hangs on the instance that it was authorized for if it is authorized at all.
pub recheck-Run :
    (p : Panel) (pick : Bool) (id : Text) (s t : Session) (d : Conn)
    → recheck p pick id s.conn ≡ some d
    → ((w : Pending) → s.pending ≡ some w → (w.gen ≤ s.conn.grant_gen) × Resolves p w)
    → Run p (record s { conn = d }) t
    → Allowed p id t.conn
unfolding recheck
recheck-Run p pick id s t d e h r = (Run-Guarded p id r start).allowed
  where
    counted : Moves (count_recheck s.conn) d
    counted = recheck_each-Moves p pick id (affected id s.conn.subs) (count_recheck s.conn) d e

    start : Guarded p id (record s { conn = d })
    start = record {
      allowed = recheck-Allowed p pick id s.conn d e;
      waiting = λ w q k. inr (omega (arith, (h w q).0, counted.later), (h w q).1);
    }
