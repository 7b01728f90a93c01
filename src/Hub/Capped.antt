-- ===== src/Hub/Capped.antt =====
-- internal/ws/hub.go: add keeps the caps where no closed connection lingers, and where one does not.
use valmin.Shared.{
  suc, ◌≤◌, ◌<◌, ◌≡◌, refl, inl, inr, Bool, true, false, List, [], ◌∷◌, Option, none, some, arith,
  Text, ltb, All-In, Bool-cases, &&_both,
}
use valmin.Hub.{CloseCode, policy_violation}
use valmin.Hub.Registry.{
  Client, Tally, no_tally, tally_of, of_user, of_session, close_oldest, enforce, max_per_session,
  max_per_user,
}
use valmin.Hub.Caps.{
  open_among, counted, n-tally_of, open-le-counted, oldest-In, oldest-some,
  open_among-close_client-le, open_among-close_client-lt, AllOpen,
}

-- No account has more than 32 open connections, and no session of it more than 8.
abbrev pub Capped : List Client → Type 0
Capped conns =
    ((user session : Text) → open_among (of_session user session) conns ≤ max_per_session)
    × ((user : Text) → open_among (of_user user) conns ≤ max_per_user)

counted-AllOpen :
    (counts : Client → Bool) (conns : List Client)
    → AllOpen conns
    → counted counts conns ≡ open_among counts conns
counted-AllOpen counts [] a = refl
counted-AllOpen counts (c ∷ conns) a = ground (arith, counted-AllOpen counts conns a.1, a.0)

-- A test that does not look at how a connection ended.
abbrev Blind : (Client → Bool) → Type 0
Blind counts =
    (c : Client) (x : Option CloseCode) → counts (record c { closed_with = x }) ≡ counts c

module _ (counts : Client → Bool) (blind : Blind counts) where
  close_oldest-le :
      (o : Option Client) (conns : List Client)
      → open_among counts (close_oldest o conns) ≤ open_among counts conns
  close_oldest-le none conns = omega arith
  close_oldest-le (some o) conns =
      open_among-close_client-le counts o.number policy_violation conns blind

  pub enforce-le :
      (session account : Tally) (conns : List Client)
      → open_among counts (enforce session account conns) ≤ open_among counts conns
  unfolding enforce
  enforce-le session account conns = elim (Bool-cases (ltb max_per_session session.n)) [
    | inl e ↦ rw e (close_oldest-le session.oldest conns)
    | inr e ↦ elim (Bool-cases (ltb max_per_user account.n)) [
      | inl f ↦ rw (e, f) (close_oldest-le account.oldest conns)
      | inr f ↦ rw (e, f) (omega arith)
    ]
  ]

  -- The oldest of those that a second test counts is closed, and the first counts them too.
  close_oldest-lt :
      (others : Client → Bool) (conns : List Client)
      → ((c : Client) → others c ≡ true → counts c ≡ true)
      → AllOpen conns
      → 0 < counted others conns
      → open_among counts (close_oldest (tally_of others conns no_tally).oldest conns)
        < open_among counts conns
  close_oldest-lt others conns wider a h =
      let (o, e) = oldest-some others conns no_tally h in
      elim (oldest-In others conns no_tally o e) [
        | inl q ↦ cc q
        | inr (i, t) ↦ rw e (
            open_among-close_client-lt counts o.number policy_violation conns o blind i refl
              (wider o t) (All-In _ o conns a i))
      ]

session_user :
    (user session : Text) (c : Client) → of_session user session c ≡ true → of_user user c ≡ true
session_user user session c h = (&&_both _ _ h).0

module _ (user session : Text) (conns : List Client) where
  abbrev pub sessions : Client → Bool
  sessions = of_session user session

  abbrev pub kept : List Client
  kept = enforce (tally_of sessions conns no_tally) (tally_of (of_user user) conns no_tally) conns

  over_session :
      AllOpen conns
      → (ltb max_per_session (tally_of sessions conns no_tally).n ≡ true)
      → (open_among sessions kept < open_among sessions conns)
        × (open_among (of_user user) kept < open_among (of_user user) conns)
  unfolding enforce
  over_session a e =
      let n : 0 < counted sessions conns = ground (arith, e, n-tally_of sessions conns no_tally) in
      (
        rw e (close_oldest-lt sessions (λ c x. refl) sessions conns (λ c h. h) a n),
        rw e (
            close_oldest-lt (of_user user) (λ c x. refl) sessions conns (session_user user session)
              a n),
      )

  over_user :
      AllOpen conns
      → (ltb max_per_session (tally_of sessions conns no_tally).n ≡ false)
      → (ltb max_per_user (tally_of (of_user user) conns no_tally).n ≡ true)
      → open_among (of_user user) kept < open_among (of_user user) conns
  unfolding enforce
  over_user a e f =
      let n : 0 < counted (of_user user) conns =
        ground (arith, f, n-tally_of (of_user user) conns no_tally) in
      rw (e, f) (close_oldest-lt (of_user user) (λ c x. refl) (of_user user) conns (λ c h. h) a n)

  -- One connection too many at most: the caps are met afterwards.
  pub kept-Capped :
      AllOpen conns
      → open_among sessions conns ≤ suc max_per_session
      → open_among (of_user user) conns ≤ suc max_per_user
      → (open_among sessions kept ≤ max_per_session)
        × (open_among (of_user user) kept ≤ max_per_user)
  kept-Capped a s u = elim (Bool-cases (ltb max_per_session (tally_of sessions conns no_tally).n)) [
    | inl e ↦ let (x, y) = over_session a e in (omega (arith, x, s), omega (arith, y, u))
    | inr e ↦
        let few : open_among sessions conns ≤ max_per_session =
          ground (arith, e, n-tally_of sessions conns no_tally, open-le-counted sessions conns) in
        (
          omega (
            arith,
            few,
            enforce-le sessions (λ c x. refl) (tally_of sessions conns no_tally)
                (tally_of (of_user user) conns no_tally) conns,
          ),
          elim (Bool-cases (ltb max_per_user (tally_of (of_user user) conns no_tally).n)) [
            | inl f ↦ omega (arith, over_user a e f, u)
            | inr f ↦
                let little : open_among (of_user user) conns ≤ max_per_user = ground (
                  arith,
                  f,
                  n-tally_of (of_user user) conns no_tally,
                  open-le-counted (of_user user) conns,
                ) in
                omega (
                  arith,
                  little,
                  enforce-le (of_user user) (λ c x. refl) (tally_of sessions conns no_tally)
                      (tally_of (of_user user) conns no_tally) conns,
                )
          ],
        )
  ]
