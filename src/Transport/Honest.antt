-- ===== src/Transport/Honest.antt =====
-- A client and a session of internal/transport that have the same passkey.
use goet.Prelude.{
  ℕ, ◌≡◌, ◌≢◌, ◌↔◌, refl, subst, Bool-cases, inl, inr, List, [], ◌∷◌, map, Bool, true, false, some,
}
use goet.Protocol.Message.{Message, auth_request, auth_response, sequence_header, auth_ok}
use goet.Session.{message}
use goet.Transport.{
  Stream, accepted, dialled, same_bytes, compute_auth_token, verify_auth_token, tcp_authenticate,
  perform_tcp_auth,
}
use goet.Transport.Accept.{same_bytes_refl, same_bytes→eq}

abbrev pub all_sent : List Message → Bool
all_sent ms = true

-- A stream on which these messages arrive.
abbrev pub arriving : List Message → Stream
arriving ms = record { incoming = map message ms; outgoing = [] }

same_bytes-unequal : (xs ys : List ℕ) → same_bytes xs ys ≡ false → xs ≢ ys
same_bytes-unequal xs ys h e =
    let same : same_bytes xs ys ≡ true =
      subst (λ t. same_bytes xs t ≡ true) e (same_bytes_refl xs) in
    cc (same, h)

module _ (mac : List ℕ → List ℕ → List ℕ) (passkey key : List ℕ) (last : ℕ) where
  -- Over TCP, if nothing is lost and both sides have the passkey and the keying material: what the client
  -- writes makes the listener accept with its number, and what the listener writes makes the client's
  -- dial succeed.
  pub tcp_handshake :
      let client =
        perform_tcp_auth mac all_sent passkey
          (some key)
          last
          (arriving (auth_response auth_ok ∷ [])) in
      let token = compute_auth_token mac passkey key in
      let server =
        tcp_authenticate mac all_sent passkey
          (some key)
          (arriving (auth_request token ∷ sequence_header last ∷ [])) in
      (client.0 ≡ dialled)
      × (client.1.outgoing ≡ sequence_header last ∷ auth_request token ∷ [])
      × (server.0 ≡ accepted last)
      × (server.1.outgoing ≡ auth_response auth_ok ∷ [])
  unfolding perform_tcp_auth tcp_authenticate verify_auth_token
  tcp_handshake =
      let same = same_bytes_refl (compute_auth_token mac passkey key) in
      (refl, refl, rw same refl, rw same refl)

module _ (mac : List ℕ → List ℕ → List ℕ) (passkey passkey' key key' : List ℕ) (last : ℕ) where
  -- Over TCP, if nothing is lost, a client with its passkey and keying material, and a listener with any others, which reads
  -- the client's token and its number if it goes on to read that: the listener accepts, with the client's
  -- number, exactly if both compute the same token, and the client's dial, on what the listener answers,
  -- succeeds exactly then too; the token is all that the client writes exactly if they differ.
  pub tcp_agreement :
      let theirs = compute_auth_token mac passkey' key' in
      let ours = compute_auth_token mac passkey key in
      let server =
        tcp_authenticate mac all_sent passkey
          (some key)
          (arriving (auth_request theirs ∷ sequence_header last ∷ [])) in
      let client =
        perform_tcp_auth mac all_sent passkey' (some key') last (arriving server.1.outgoing) in
      ((server.0 ≡ accepted last) ↔ (theirs ≡ ours))
      × ((client.0 ≡ dialled) ↔ (theirs ≡ ours))
      × ((client.1.outgoing ≡ auth_request theirs ∷ []) ↔ (theirs ≢ ours))
  unfolding perform_tcp_auth tcp_authenticate verify_auth_token
  tcp_agreement =
      let theirs = compute_auth_token mac passkey' key' in
      let ours = compute_auth_token mac passkey key in
      elim (Bool-cases (same_bytes theirs ours)) [
        | inl same ↦
            let equal : theirs ≡ ours = same_bytes→eq theirs ours same in
            rw same (
              (λ h. equal, λ h. refl),
              (λ h. equal, λ h. refl),
              (λ h. cc, λ other. absurd (other equal)),
            )
        | inr different ↦
            let unequal : theirs ≢ ours = λ e. same_bytes-unequal theirs ours different e in
            rw different (
              (λ h. cc, λ e. absurd (unequal e)),
              (λ h. cc, λ e. absurd (unequal e)),
              (λ h. unequal, λ other. refl),
            )
      ]
