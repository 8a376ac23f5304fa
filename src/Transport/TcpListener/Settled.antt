-- ===== src/Transport/TcpListener/Settled.antt =====
-- What Accept of internal/transport/tcp_listener.go leaves open, and when it ends.
use goet.Prelude.{ℕ, ◌≡◌, ◌≢◌, ◌⊎◌, refl, sym, subst, arith, inl, inr}
use goet.Prelude.{List, [], ◌∷◌, Bool, true, false, Option, none, some}
use goet.Protocol.Message.{Message}
use goet.Transport.{Accepted, accepted, refused, tcp_authenticate, read}
use goet.Transport.Accept.{IsAuthentic, tcp_authenticate_sound}
use goet.Transport.TcpListener.{
  Peer, Arrival, Result, given, context_done, cleaner, nobody, Call, begin, Event, arrives, take,
  cancel, clean, IsOwn, is_ready, close_late, authenticated, take_arrival, step, Reaches, here,
  arrive, go_on,
}

abbrev pub IsGiven : Option Result → Type 0
IsGiven (some (given c last)) = Unit
IsGiven _ = ⊥

-- The call and its goroutines have ended.
abbrev pub IsEnded : Call → Type 0
IsEnded k = (k.is_blocked ≡ false) × (k.ch ≡ none) × (k.receiver ≡ nobody)

module _ (mac : List ℕ → List ℕ → List ℕ) (sends : List Message → Bool) (passkey : List ℕ) where
  -- What is to become of a connection: it is given out, and was authenticated, or it is closed.
  abbrev pub IsSettled : Option Arrival → Call → Type 0
  IsSettled none k = ⊥
  IsSettled (some none) k = (k.closed ≡ []) × (¬ IsGiven k.result)
  IsSettled (some (some p)) k =
      ((last : ℕ) × (k.result ≡ some (given p.id last))
        × (k.closed ≡ [])
        × IsAuthentic mac passkey p.material (read p.stream).0 (read (read p.stream).1).0 last)
      ⊎ ((k.closed ≡ p.id ∷ []) × (¬ IsGiven k.result))

  -- The states that can come about.
  data Stage : Option Arrival → Call → Type 0 where
    waits : (k : Call) → k ≡ begin → Stage none k
    given_up :
        (k : Call)
        → k ≡ record begin { receiver = cleaner; result = some context_done }
        → Stage none k
    sent :
        (a : Arrival) (k : Call)
        → k ≡ record begin { is_blocked = false; ch = some a }
        → Stage (some a) k
    late :
        (a : Arrival) (k : Call)
        → k ≡ record begin {
          is_blocked = false;
          ch = some a;
          receiver = cleaner;
          result = some context_done;
        }
        → Stage (some a) k
    ended : (a : Arrival) (k : Call) → IsEnded k → IsSettled (some a) k → Stage (some a) k

  abbrev Ends : Arrival → Call → Type 0
  Ends a k = IsEnded k × IsSettled (some a) k

  abbrev sent_state : Arrival → Call
  sent_state a = record begin { is_blocked = false; ch = some a }

  abbrev late_state : Arrival → Call
  late_state a = record begin {
    is_blocked = false;
    ch = some a;
    receiver = cleaner;
    result = some context_done;
  }

  take-Ends : (a : Arrival) → Ends a (take_arrival mac sends passkey (some a) (sent_state a))
  take-Ends none = ((refl, refl, refl), (refl, λ h. h))
  take-Ends (some p) =
      settle (tcp_authenticate mac sends passkey p.material p.stream).0
        (λ last. tcp_authenticate_sound mac sends passkey p.material p.stream last)
    where
      settle :
          (r : Accepted)
          → ((last : ℕ)
              → r ≡ accepted last
              → IsAuthentic mac passkey p.material
                  (read p.stream).0
                  (read (read p.stream).1).0
                  last)
          → Ends (some p) (authenticated mac sends passkey p r (sent_state (some p)))
      settle (accepted last) sound = ((refl, refl, refl), inl (last, refl, refl, sound last refl))
      settle (refused why) sound = ((refl, refl, refl), inr (refl, λ h. h))

  late-Ends : (a : Arrival) → Ends a (close_late (some a) (late_state a))
  late-Ends none = ((refl, refl, refl), (refl, λ h. h))
  late-Ends (some p) = ((refl, refl, refl), inr (refl, λ h. h))

  ended_stuck : (k : Call) (ev : Event) → IsEnded k → is_ready ev k ≡ true → ⊥
  unfolding is_ready
  ended_stuck k (arrives a) (unblocked, empty, no_one) ready = cc
  ended_stuck k take (unblocked, empty, no_one) ready = ground arith
  ended_stuck k cancel (unblocked, empty, no_one) ready = ground arith
  ended_stuck k clean (unblocked, empty, no_one) ready = ground arith

  step-Stage :
      (o : Option Arrival) (k : Call) (ev : Event)
      → Stage o k
      → is_ready ev k ≡ true
      → IsOwn ev
      → Stage o (step mac sends passkey ev k)
  unfolding step is_ready
  step-Stage _ _ (arrives a) stage ready own = absurd own
  step-Stage _ _ take (waits k at) ready own = ground arith
  step-Stage _ _ cancel (waits k at) ready own = given_up _ (rw at refl)
  step-Stage _ _ clean (waits k at) ready own = ground arith
  step-Stage _ _ take (given_up k at) ready own = ground arith
  step-Stage _ _ cancel (given_up k at) ready own = ground arith
  step-Stage _ _ clean (given_up k at) ready own = ground arith
  step-Stage _ _ take (sent a k at) ready own = rw at (ended a _ (take-Ends a).0 (take-Ends a).1)
  step-Stage _ _ cancel (sent a k at) ready own = late a _ (rw at refl)
  step-Stage _ _ clean (sent a k at) ready own = ground arith
  step-Stage _ _ take (late a k at) ready own = ground arith
  step-Stage _ _ cancel (late a k at) ready own = ground arith
  step-Stage _ _ clean (late a k at) ready own = rw at (ended a _ (late-Ends a).0 (late-Ends a).1)
  step-Stage _ _ ev (ended a k done settled) ready own = absurd (ended_stuck k ev done ready)

  arrive-Stage :
      (k : Call) (a : Arrival)
      → Stage none k
      → Stage (some a) (step mac sends passkey (arrives a) k)
  unfolding step
  arrive-Stage _ a (waits k at) = sent a _ (rw at refl)
  arrive-Stage _ a (given_up k at) = late a _ (rw at refl)

  Reaches-Stage : (o : Option Arrival) (k : Call) → Reaches mac sends passkey o k → Stage o k
  Reaches-Stage _ _ here = waits begin refl
  Reaches-Stage _ _ (arrive k a before ready) = arrive-Stage k a (Reaches-Stage none k before)
  Reaches-Stage _ _ (go_on o k ev before ready own) =
      step-Stage o k ev (Reaches-Stage o k before) ready own

  -- A connection that is returned is authentic.
  pub given-IsAuthentic :
      (p : Peer) (k : Call) (c last : ℕ)
      → Reaches mac sends passkey (some (some p)) k
      → k.result ≡ some (given c last)
      → IsAuthentic mac passkey p.material (read p.stream).0 (read (read p.stream).1).0 last
  given-IsAuthentic p k c last reached gives =
      by_stage (some (some p)) k refl (Reaches-Stage (some (some p)) k reached) gives
    where
      none_given : (r : Option Result) → r ≡ some (given c last) → (IsGiven r → ⊥) → ⊥
      none_given r gives not_given = not_given (subst (λ x. IsGiven x) (sym gives) tt)

      arrival_same : (a b : Arrival) → ◌≡◌ {A = Option Arrival} (some a) (some b) → a ≡ b
      arrival_same a b h = cc

      by_settled :
          (k : Call)
          → IsSettled (some (some p)) k
          → k.result ≡ some (given c last)
          → IsAuthentic mac passkey p.material (read p.stream).0 (read (read p.stream).1).0 last
      by_settled k (inl (n, is, open_, sound)) gives =
          subst
            (λ x. IsAuthentic mac passkey p.material (read p.stream).0 (read (read p.stream).1).0 x)
            (cc) sound
      by_settled k (inr (closed, not_given)) gives =
          absurd (not_given (subst (λ r. IsGiven r) (sym gives) tt))

      by_stage :
          (o : Option Arrival) (k : Call)
          → o ≡ some (some p)
          → Stage o k
          → k.result ≡ some (given c last)
          → IsAuthentic mac passkey p.material (read p.stream).0 (read (read p.stream).1).0 last
      by_stage _ _ is (waits k at) gives = cc
      by_stage _ _ is (given_up k at) gives = cc
      by_stage _ _ is (sent a k at) gives = absurd (none_given k.result gives (rw at (λ h. h)))
      by_stage _ _ is (late a k at) gives = absurd (none_given k.result gives (rw at (λ h. h)))
      by_stage _ _ is (ended a k done settled) gives =
          by_settled k (subst (λ x. IsSettled (some x) k) (arrival_same a (some p) is) settled)
            gives

  -- Once the network listener has given a connection or an error, the call and its goroutines end after at most one
  -- further event, which is ready, and neither one of the network nor the caller's cancellation. When they have
  -- ended, whatever came before: a connection was returned by Accept, which read the token of the passkey and
  -- the sequence header whose number it returned, and was left open; or it was closed, once, and not returned. Of an error
  -- nothing was closed or returned.
  pub Reaches-settles :
      (a : Arrival) (k : Call)
      → Reaches mac sends passkey (some a) k
      → (IsEnded k × IsSettled (some a) k)
        ⊎ ((ev : Event) × IsOwn ev
            × (ev ≢ cancel)
            × (is_ready ev k ≡ true)
            × IsEnded (step mac sends passkey ev k)
            × IsSettled (some a) (step mac sends passkey ev k))
  unfolding step is_ready
  Reaches-settles a k reached = settles (some a) k a refl (Reaches-Stage (some a) k reached)
    where
      settles :
          (o : Option Arrival) (k : Call) (a : Arrival)
          → o ≡ some a
          → Stage o k
          → (IsEnded k × IsSettled o k)
            ⊎ ((ev : Event) × IsOwn ev
                × (ev ≢ cancel)
                × (is_ready ev k ≡ true)
                × IsEnded (step mac sends passkey ev k)
                × IsSettled o (step mac sends passkey ev k))
      settles _ _ a is (waits k at) = cc
      settles _ _ a is (given_up k at) = cc
      settles _ _ _ is (sent a k at) =
          rw at (inr (take, tt, λ e. cc, refl, (take-Ends a).0, (take-Ends a).1))
      settles _ _ _ is (late a k at) =
          rw at (inr (clean, tt, λ e. cc, refl, (late-Ends a).0, (late-Ends a).1))
      settles _ _ _ is (ended a k done settled) = inl (done, settled)
