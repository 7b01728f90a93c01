-- ===== src/Hub/Admission.antt =====
-- internal/ws/hub.go: what add comes to.
use valmin.Shared.{
  ℕ, suc, ◌≤◌, ◌<◌, ◌≡◌, refl, ap, ◌∙◌, inl, inr, Bool, true, false, List, [], ◌∷◌, Option, some,
  arith, text_eq, text_eq_iff, text_eq_refl, ◌==◌, ==_iff, ltb, In, Bool-cases, &&_both,
}
use valmin.Hub.{CloseCode, is_closed, close_code, policy_violation}
use valmin.Hub.Registry.{
  Client, Hub, no_tally, tally_of, of_user, of_session, close_client, enforce, add, max_per_session,
  max_per_user,
}
use valmin.Hub.Caps.{open_among, AllOpen}
use valmin.Hub.Capped.{Capped, enforce-le, kept-Capped, kept}

module _ (c : Client) (conns : List Client) where
  open_among-add :
      (counts : Client → Bool) → open_among counts (c ∷ conns) ≤ suc (open_among counts conns)
  open_among-add counts = ground arith

  open_among-other :
      (counts : Client → Bool)
      → counts c ≡ false
      → open_among counts (c ∷ conns) ≡ open_among counts conns
  open_among-other counts h = rw h refl

  add_own :
      is_closed c.closed_with ≡ false
      → AllOpen conns
      → Capped conns
      → (open_among (of_session c.user_id c.session_id) (kept c.user_id c.session_id (c ∷ conns))
          ≤ max_per_session)
        × (open_among (of_user c.user_id) (kept c.user_id c.session_id (c ∷ conns)) ≤ max_per_user)
  add_own o a (s, u) =
      kept-Capped c.user_id c.session_id (c ∷ conns) (o, a)
        (omega
          (arith, s c.user_id c.session_id, open_among-add (of_session c.user_id c.session_id)))
        (omega (arith, u c.user_id, open_among-add (of_user c.user_id)))

  kept-le :
      (counts : Client → Bool)
      → ((d : Client) (x : Option CloseCode) → counts (record d { closed_with = x }) ≡ counts d)
      → counts c ≡ false
      → open_among counts (kept c.user_id c.session_id (c ∷ conns)) ≤ open_among counts conns
  kept-le counts blind h =
      rw (← open_among-other counts h) (enforce-le counts blind _ _ (c ∷ conns))

-- An open connection is registered at a hub that is not closed, and none of the hub's connections
-- is closed and still registered. If then no session had more than 8 open connections and no
-- account more than 32, so it is after the registration: too many are met by closing one of them.
pub add-Capped :
    (c : Client) (h : Hub)
    → h.closed ≡ false
    → is_closed c.closed_with ≡ false
    → AllOpen h.conns
    → Capped h.conns
    → Capped (add c h).0.conns
unfolding add
add-Capped c h n o a k = rw n (
  (λ user session. elim (Bool-cases (of_session user session c)) [
    | inr e ↦
        omega (arith, kept-le c h.conns (of_session user session) (λ d x. refl) e, k.0 user session)
    | inl e ↦
        let (p, q) = &&_both (text_eq c.user_id user) (text_eq c.session_id session) e in
        rw (← (text_eq_iff c.user_id user).0 p, ← (text_eq_iff c.session_id session).0 q)
          (add_own c h.conns o a k).0
  ]),
  (λ user. elim (Bool-cases (of_user user c)) [
    | inr e ↦ omega (arith, kept-le c h.conns (of_user user) (λ d x. refl) e, k.1 user)
    | inl e ↦ rw (← (text_eq_iff c.user_id user).0 e) (add_own c h.conns o a k).1
  ]),
)

-- Closing what is closed already changes the number of open connections of no kind.
close_closed :
    (counts : Client → Bool) (number : ℕ) (code : CloseCode) (conns : List Client)
    → ((x : Client) → In x conns → x.number ≡ number → is_closed x.closed_with ≡ true)
    → open_among counts (close_client number code conns) ≡ open_among counts conns
unfolding close_client
close_closed counts number code [] h = refl
close_closed counts number code (c ∷ conns) h =
    let rest = close_closed counts number code conns (λ x i. h x (inr i)) in
    elim (Bool-cases (c.number == number)) [
      | inr e ↦ rw (e, rest) refl
      | inl e ↦
          let was : is_closed c.closed_with ≡ true =
            h c (inl refl) ((==_iff c.number number).0 e) in
          rw (e, rest) (ap (λ (x : Client). open_among counts (x ∷ conns)) (still c code was))
    ]
  where
    still :
        (d : Client) (k : CloseCode)
        → is_closed d.closed_with ≡ true
        → record d { closed_with = close_code k d.closed_with } ≡ d
    still d k e = ground arith

-- Where the oldest connection of a session that is over its cap is closed already and still
-- registered, a further connection of that session closes none: the session has one open connection
-- more, however many it had. A number stands for one connection.
pub add-lingering :
    (c : Client) (h : Hub) (o : Client)
    → h.closed ≡ false
    → is_closed c.closed_with ≡ false
    → (tally_of (of_session c.user_id c.session_id) (c ∷ h.conns) no_tally).oldest ≡ some o
    → max_per_session < (tally_of (of_session c.user_id c.session_id) (c ∷ h.conns) no_tally).n
    → ((x : Client) → In x (c ∷ h.conns) → x.number ≡ o.number → is_closed x.closed_with ≡ true)
    → open_among (of_session c.user_id c.session_id) (add c h).0.conns
      ≡ suc (open_among (of_session c.user_id c.session_id) h.conns)
unfolding add enforce
add-lingering c h o n k e m u =
    let over : ltb max_per_session
          (tally_of (of_session c.user_id c.session_id) (c ∷ h.conns) no_tally).n
        ≡ true =
      ground arith in
    rw (n, over, e)
      (close_closed (of_session c.user_id c.session_id) o.number policy_violation (c ∷ h.conns) u
        ∙ own)
  where
    own :
        open_among (of_session c.user_id c.session_id) (c ∷ h.conns)
        ≡ suc (open_among (of_session c.user_id c.session_id) h.conns)
    own = rw (text_eq_refl c.user_id, text_eq_refl c.session_id, k) refl
