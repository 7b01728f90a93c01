-- ===== src/Hub/Caps.antt =====
-- internal/ws/hub.go: what the caps on connections come to.
use valmin.Shared.{
  ℕ, suc, ◌+◌, ◌≤◌, ◌<◌, ◌≡◌, refl, sym, ap, ◌∙◌, ◌⊎◌, inl, inr, Bool, true, false, not, ◌&&◌, List,
  [], ◌∷◌, Option, none, some, arith, if◌then◌else◌, ltb, In, All, Bool-cases,
}
use valmin.Hub.{CloseCode, is_closed, close_code}
use valmin.Hub.Moves.{some_injective}
use valmin.Hub.Registry.{Client, Tally, older, count, tally_of, close_client}

-- The open connections that a test counts.
abbrev pub open_among : (Client → Bool) → List Client → ℕ
open_among counts [] = 0
open_among counts (c ∷ conns) =
    let rest = open_among counts conns in
    if counts c && not (is_closed c.closed_with) then suc rest else rest

-- All of them, open or closed.
abbrev pub counted : (Client → Bool) → List Client → ℕ
counted counts [] = 0
counted counts (c ∷ conns) = let rest = counted counts conns in if counts c then suc rest else rest

closed_after : (code : CloseCode) (x : Option CloseCode) → is_closed (close_code code x) ≡ true
closed_after code none = refl
closed_after code (some y) = refl

module _ (counts : Client → Bool) where
  tally_of-nil : (k : Tally) → tally_of counts [] k ≡ k
  unfolding tally_of
  tally_of-nil k = refl

  tally_of-yes :
      (c : Client) (conns : List Client) (k : Tally)
      → counts c ≡ true
      → tally_of counts (c ∷ conns) k ≡ tally_of counts conns (count c k)
  unfolding tally_of
  tally_of-yes c conns k h = ap (λ (b : Bool). tally_of counts conns (if b then count c k else k)) h

  tally_of-no :
      (c : Client) (conns : List Client) (k : Tally)
      → counts c ≡ false
      → tally_of counts (c ∷ conns) k ≡ tally_of counts conns k
  unfolding tally_of
  tally_of-no c conns k h = ap (λ (b : Bool). tally_of counts conns (if b then count c k else k)) h

  pub n-tally_of :
      (conns : List Client) (k : Tally) → (tally_of counts conns k).n ≡ k.n + counted counts conns
  unfolding tally_of count
  n-tally_of [] k = omega arith
  n-tally_of (c ∷ conns) k = elim (Bool-cases (counts c)) [
    | inl e ↦
        tally_of-n (count c k) (tally_of-yes c conns k e)
          (rw e (omega (arith, n-tally_of conns (count c k))))
    | inr e ↦ tally_of-n k (tally_of-no c conns k e) (rw e (n-tally_of conns k))
  ]
    where
      tally_of-n :
          (l : Tally)
          → tally_of counts (c ∷ conns) k ≡ tally_of counts conns l
          → (tally_of counts conns l).n ≡ k.n + counted counts (c ∷ conns)
          → (tally_of counts (c ∷ conns) k).n ≡ k.n + counted counts (c ∷ conns)
      tally_of-n l q r = ap (λ (x : Tally). x.n) q ∙ r

  pub open-le-counted : (conns : List Client) → open_among counts conns ≤ counted counts conns
  open-le-counted [] = omega arith
  open-le-counted (c ∷ conns) = ground (arith, open-le-counted conns)

  -- The oldest is one of the connections that count.
  pub oldest-In :
      (conns : List Client) (k : Tally) (o : Client)
      → (tally_of counts conns k).oldest ≡ some o
      → (k.oldest ≡ some o) ⊎ In o conns × (counts o ≡ true)
  unfolding count older
  oldest-In [] k o e = inl (rw (tally_of-nil k) at e)
  oldest-In (c ∷ conns) k o e = elim (Bool-cases (counts c)) [
    | inr h ↦ elim (oldest-In conns k o (rw (tally_of-no c conns k h) at e)) [
      | inl q ↦ inl q
      | inr (i, t) ↦ inr (inr i, t)
    ]
    | inl h ↦ elim (oldest-In conns (count c k) o (rw (tally_of-yes c conns k h) at e)) [
      | inr (i, t) ↦ inr (inr i, t)
      | inl q ↦ elim (older-cases c o k.oldest q) [
        | inl d ↦ inr (inl (sym d), rw (← d) h)
        | inr d ↦ inl d
      ]
    ]
  ]
    where
      older-cases : (c o : Client) (k : Option Client) → older c k ≡ some o → (c ≡ o) ⊎ (k ≡ some o)
      older-cases c o none e = inl (some_injective c o e)
      older-cases c o (some x) e = elim (Bool-cases (ltb c.connected_at x.connected_at)) [
        | inl l ↦ inl (some_injective c o (rw l at e))
        | inr l ↦ inr (rw l at e)
      ]

  pub oldest-some :
      (conns : List Client) (k : Tally)
      → 0 < counted counts conns
      → (o : Client) × ((tally_of counts conns k).oldest ≡ some o)
  unfolding count older
  oldest-some [] k h = elim h [ ]
  oldest-some (c ∷ conns) k h = elim (Bool-cases (counts c)) [
    | inr e ↦ rw (tally_of-no c conns k e) (oldest-some conns k (rw e at h))
    | inl e ↦ rw (tally_of-yes c conns k e) (stays conns (count c k) (found_older c k.oldest))
  ]
    where
      found_older : (c : Client) (k : Option Client) → (o : Client) × (older c k ≡ some o)
      found_older c none = (c, refl)
      found_older c (some x) = elim (Bool-cases (ltb c.connected_at x.connected_at)) [
        | inl l ↦ (c, rw l refl)
        | inr l ↦ (x, rw l refl)
      ]

      stays :
          (conns : List Client) (k : Tally)
          → (o : Client) × (k.oldest ≡ some o)
          → (o : Client) × ((tally_of counts conns k).oldest ≡ some o)
      stays [] k h = rw (tally_of-nil k) h
      stays (c ∷ conns) k h = elim (Bool-cases (counts c)) [
        | inl e ↦ rw (tally_of-yes c conns k e) (stays conns (count c k) (found_older c k.oldest))
        | inr e ↦ rw (tally_of-no c conns k e) (stays conns k h)
      ]

  -- The close of an open connection that counts makes one less of the open ones.
  pub open_among-close_client-le :
      (number : ℕ) (code : CloseCode) (conns : List Client)
      → ((c : Client) (x : Option CloseCode) → counts (record c { closed_with = x }) ≡ counts c)
      → open_among counts (close_client number code conns) ≤ open_among counts conns
  unfolding close_client
  open_among-close_client-le number code [] s = omega arith
  open_among-close_client-le number code (c ∷ conns) s = ground (
    arith,
    open_among-close_client-le number code conns s,
    s c (close_code code c.closed_with),
    closed_after code c.closed_with,
  )

  pub open_among-close_client-lt :
      (number : ℕ) (code : CloseCode) (conns : List Client) (o : Client)
      → ((c : Client) (x : Option CloseCode) → counts (record c { closed_with = x }) ≡ counts c)
      → In o conns
      → o.number ≡ number
      → counts o ≡ true
      → is_closed o.closed_with ≡ false
      → open_among counts (close_client number code conns) < open_among counts conns
  unfolding close_client
  open_among-close_client-lt number code [] o s i n t f = absurd i
  open_among-close_client-lt number code (c ∷ conns) o s (inl e) n t f = ground (
    arith,
    open_among-close_client-le number code conns s,
    s c (close_code code c.closed_with),
    closed_after code c.closed_with,
  )
  open_among-close_client-lt number code (c ∷ conns) o s (inr i) n t f = ground (
    arith,
    open_among-close_client-lt number code conns o s i n t f,
    s c (close_code code c.closed_with),
    closed_after code c.closed_with,
  )

-- No registered connection is closed.
abbrev pub AllOpen : List Client → Type 0
AllOpen = All (λ c. is_closed c.closed_with ≡ false)
