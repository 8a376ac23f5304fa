-- ===== src/Transport/Accept.antt =====
-- Which connections the listeners of internal/transport accept.
use goet.Prelude.{
  ℕ, ◌≡◌, refl, ap, ap₂, ◌∙◌, List, [], ◌∷◌, Bool, true, false, Bool-cases, Option, none, some, inl,
  inr, ◌==◌, ==→eq, ==_refl, if◌then◌else◌, arith,
}
use goet.Protocol.Message.{Message, auth_request, auth_response, sequence_header, auth_ok}
use goet.Session.{Received, message, read_error}
use goet.Transport.{
  Stream, read, read_from, Accepted, accepted, refused, write_failed, same_bytes,
  compute_auth_token, verify_auth_token, write, take_header, answer, check_token, tcp_authenticate,
  accept_data, quic_authenticate,
}

pub same_bytes→eq : (xs ys : List ℕ) → same_bytes xs ys ≡ true → xs ≡ ys
same_bytes→eq [] [] h = refl
same_bytes→eq [] (y ∷ ys) h = cc
same_bytes→eq (x ∷ xs) [] h = cc
same_bytes→eq (x ∷ xs) (y ∷ ys) h = elim (Bool-cases (x == y)) [
  | inl same ↦ ap₂ (λ a b. a ∷ b) (==→eq x y same) (same_bytes→eq xs ys (ground arith))
  | inr other ↦ ground arith
]

pub same_bytes_refl : (xs : List ℕ) → same_bytes xs xs ≡ true
same_bytes_refl [] = refl
same_bytes_refl (x ∷ xs) = ground (arith, ==_refl x, same_bytes_refl xs)

pub read_from_same : (rs : List Received) (s t : Stream) → (read_from rs s).0 ≡ (read_from rs t).0
read_from_same [] s t = refl
read_from_same (r ∷ rs) s t = refl

-- What was read from the client if it was accepted with `last`.
pub record IsAuthentic (mac : List ℕ → List ℕ → List ℕ) (passkey : List ℕ)
    (material : Option (List ℕ)) (first second : Received) (last : ℕ) : Type 0 where
  pub key : List ℕ
  pub exported : material ≡ some key
  pub proved : first ≡ message (auth_request (compute_auth_token mac passkey key))
  pub announced : second ≡ message (sequence_header last)

module _ (mac : List ℕ → List ℕ → List ℕ) (sends : List Message → Bool) (passkey : List ℕ) where
  take_header-accepts :
      (r : Received) (s : Stream) (last : ℕ)
      → (take_header mac sends (r, s)).0 ≡ accepted last
      → r ≡ message (sequence_header last)
  take_header-accepts (message (sequence_header n)) s last h = cc
  take_header-accepts (message _) s last h = cc
  take_header-accepts read_error s last h = cc

  if-accepts :
      (b : Bool) (x : Accepted × Stream) (s : Stream) (last : ℕ)
      → (if b then x else (refused write_failed, s)).0 ≡ accepted last
      → x.0 ≡ accepted last
  if-accepts true x s last h = h
  if-accepts false x s last h = cc

  answer-accepts :
      (rest : Stream → Accepted × Stream) (verified : Bool) (s : Stream) (last : ℕ)
      → (answer mac sends rest verified s).0 ≡ accepted last
      → (verified ≡ true) × ((rest (write mac sends (auth_response auth_ok) s).0).0 ≡ accepted last)
  answer-accepts rest true s last h =
      (refl, if-accepts (sends (auth_response auth_ok ∷ s.outgoing)) _ _ last h)
  answer-accepts rest false s last h = cc

  check_token-accepts :
      (rest : Stream → Accepted × Stream) (material : Option (List ℕ)) (r : Received) (s : Stream)
      (last : ℕ)
      → (check_token mac sends rest passkey material (r, s)).0 ≡ accepted last
      → (key : List ℕ) × (material ≡ some key)
        × (r ≡ message (auth_request (compute_auth_token mac passkey key)))
        × ((rest (write mac sends (auth_response auth_ok) s).0).0 ≡ accepted last)
  unfolding verify_auth_token
  check_token-accepts rest none (message (auth_request token)) s last h = cc
  check_token-accepts rest (some key) (message (auth_request token)) s last h =
      let (verified, then_accepts) = answer-accepts rest _ s last h in
      (key, refl, ap (λ t. message (auth_request t)) (same_bytes→eq token _ verified), then_accepts)
  check_token-accepts rest material (message _) s last h = cc
  check_token-accepts rest material read_error s last h = cc

  -- The TCP listener accepts a connection, with `last` for its LastClientSeq, only if it read the token of its
  -- passkey and keying material, and then a sequence header with `last`.
  pub tcp_authenticate_sound :
      (material : Option (List ℕ)) (s : Stream) (last : ℕ)
      → (tcp_authenticate mac sends passkey material s).0 ≡ accepted last
      → IsAuthentic mac passkey material (read s).0 (read (read s).1).0 last
  unfolding tcp_authenticate
  tcp_authenticate_sound material s last h =
      let (r, s') = read s in
      let (key, exported, proved, then_accepts) =
        check_token-accepts (λ t. take_header mac sends (read t)) material r s' last h in
      let (t, t') = read (write mac sends (auth_response auth_ok) s').0 in
      record {
        key = key;
        exported = exported;
        proved = proved;
        announced = read_from_same s'.incoming s' _ ∙ take_header-accepts t t' last then_accepts;
      }

  -- The QUIC listener accepts a connection, with `last` for its LastClientSeq, only if it read the token of its
  -- passkey and keying material from the control stream, and then a sequence header with `last` from
  -- the data stream.
  pub quic_authenticate_sound :
      (material : Option (List ℕ)) (control : Stream) (data_stream : Option Stream) (last : ℕ)
      → (quic_authenticate mac sends passkey material (some control) data_stream).0 ≡ accepted last
      → (d : Stream) × (data_stream ≡ some d)
        × IsAuthentic mac passkey material (read control).0 (read d).0 last
  unfolding quic_authenticate
  quic_authenticate_sound material control none last h =
      let (r, s') = read control in
      let (key, exported, proved, never) =
        check_token-accepts (accept_data mac sends none) material r s' last h in
      cc
  quic_authenticate_sound material control (some d) last h =
      let (r, s') = read control in
      let (key, exported, proved, then_accepts) =
        check_token-accepts (accept_data mac sends (some d)) material r s' last h in
      let (t, t') = read d in
      (
        d,
        refl,
        record {
          key = key;
          exported = exported;
          proved = proved;
          announced = take_header-accepts t t' last then_accepts;
        },
      )
