-- ===== src/Tunnel/Handshake/Signing.antt =====
-- What a signed handshake is accepted for.
use accel_proxy.Common.{
  Bool, Bool-cases, Option-cases, String, ap, arith, beq_cases, bool_eq, false, ge→ltb, if_both,
  if◌then◌else◌, inl, inr, ltb, nat_eq, none, not, pair_eq, refl, some, string_eq, subst, sym, true,
  ℕ, ◌==◌, ◌↔◌, ◌∙◌, ◌≡◌, ◌≢◌, ◌≤◌, ◌⊎◌,
}
use accel_proxy.Common.Int.{int_eq, ltz, pos, ℤ, ◌-ℤ◌}
use accel_proxy.Tunnel.Handshake.{
  HandshakeError, HandshakeRequest, answer_handshake, check_handshake, compute_hmac, magnitude,
  max_clock_skew, ok_response, sign_request, signature_mismatch, signed_text, timestamp_drift,
  verify_request,
}

-- A test that is passed, as what it says.
equal-or-not : (a b : String) → ((a == b) ≡ false) ↔ (a ≢ b)
equal-or-not a b = (
  (λ h e. let t = (string_eq.beq_iff a b).1 e in cc),
  (λ n. elim (beq_cases a b) [ inl (t, e) ↦ absurd (n e) | inr t ↦ t ]),
)

check_handshake-none :
    (req : HandshakeRequest)
    → (check_handshake req ≡ none)
      ↔ ((req.version ≡ pos 1) × (ltz (pos 16) req.hop_count ≡ false) × (req.target_idc ≢ ""))
unfolding check_handshake
check_handshake-none req = (
  (λ h. elim (beq_cases req.version (pos 1)) [
    | inr t ↦ absurd (ground (arith, h, t))
    | inl (t, e) ↦ elim (Bool-cases (ltz (pos 16) req.hop_count)) [
      | inl u ↦ absurd (ground (arith, h, t, u))
      | inr u ↦ elim (beq_cases req.target_idc "") [
        | inl (w, f) ↦ absurd (ground (arith, h, t, u, w))
        | inr w ↦ (e, u, (equal-or-not req.target_idc "").0 w)
      ]
    ]
  ]),
  (λ (e, u, n).
      let t = (int_eq.beq_iff req.version (pos 1)).1 e in
      let w = (equal-or-not req.target_idc "").1 n in ground (arith, t, u, w)),
)

gates :
    (p d s : Bool)
    → ((if p
          then none
          else if d
          then some timestamp_drift
          else if not s
          then some signature_mismatch
          else none)
        ≡ none)
      ↔ ((p ≡ true) ⊎ ((p ≡ false) × (d ≡ false) × (s ≡ true)))
gates true d s = ground arith
gates false true s = ground arith
gates false false true = ground arith
gates false false false = ground arith

module _ (hmac : String → String → String) where
  verify_request-none :
      (now : ℤ) (req : HandshakeRequest) (psk : String)
      → (verify_request hmac now req psk ≡ none) ↔ (
          (psk ≡ "")
          ⊎ ((psk ≢ "")
              × (magnitude (now -ℤ req.timestamp) ≤ 60)
              × (req.signature ≡ hmac psk (signed_text req))))
  unfolding verify_request compute_hmac
  verify_request-none now req psk = (
    (λ h. elim (passes.0 h) [
      | inl p ↦ inl ((string_eq.beq_iff psk "").0 p)
      | inr (p, d, q) ↦ inr (
        (equal-or-not psk "").0 p,
        not_more skew d,
        (string_eq.beq_iff req.signature (hmac psk (signed_text req))).0 q,
      )
    ]),
    (λ h. elim h [
      | inl e ↦ passes.1 (inl ((string_eq.beq_iff psk "").1 e))
      | inr (n, d, e) ↦ passes.1 (
          inr (
            (equal-or-not psk "").1 n,
            ge→ltb max_clock_skew skew d,
            (string_eq.beq_iff req.signature (hmac psk (signed_text req))).1 e,
          ))
    ]),
  )
    where
      skew : ℕ
      skew = magnitude (now -ℤ req.timestamp)

      passes : (verify_request hmac now req psk ≡ none) ↔ (
          ((psk == "") ≡ true)
          ⊎ (((psk == "") ≡ false)
              × (ltb max_clock_skew skew ≡ false)
              × ((req.signature == hmac psk (signed_text req)) ≡ true)))
      passes =
          gates (psk == "") (ltb max_clock_skew skew) (req.signature == hmac psk (signed_text req))

      not_more : (n : ℕ) → ltb max_clock_skew n ≡ false → n ≤ 60
      not_more n h = ground arith

-- A server lets a tunnel through only for a request of this version that has a target and at most 16
-- hops behind it; and when it has a key, only if the time stamp is at most 60 seconds off and the
-- signature is the HMAC, under that key, of the version, the service, the target and the time stamp.
-- Nothing else is required.
pub answer_handshake_lem :
    (hmac : String → String → String) (describe : HandshakeError → String) (node_id psk : String)
    (now : ℤ) (req : HandshakeRequest)
    → let (response, accepted) = answer_handshake hmac describe node_id psk now req in
      (accepted ≡ true) ↔ (
        (req.version ≡ pos 1)
        × (ltz (pos 16) req.hop_count ≡ false)
        × (req.target_idc ≢ "")
        × ((psk ≡ "")
            ⊎ ((psk ≢ "")
                × (magnitude (now -ℤ req.timestamp) ≤ 60)
                × (req.signature ≡ hmac psk (signed_text req)))))
unfolding answer_handshake
answer_handshake_lem hmac describe node_id psk now req = (
  (λ h. elim (Option-cases (check_handshake req)) [
    | inr (e, c) ↦ absurd (ground (arith, h, c))
    | inl c ↦ elim (Option-cases (verify_request hmac now req psk)) [
      | inr (e, w) ↦ absurd (ground (arith, h, c, w))
      | inl w ↦
          (let (x, y, z) = (check_handshake-none req).0 c in
            (x, y, z, (verify_request-none hmac now req psk).0 w))
    ]
  ]),
  (λ (x, y, z, v).
      let c = (check_handshake-none req).1 (x, y, z) in
      let w = (verify_request-none hmac now req psk).1 v in ground (arith, c, w)),
)

sign_request_lem :
    (hmac : String → String → String) (now : ℤ) (req : HandshakeRequest) (psk : String)
    → let signed = sign_request hmac now req psk in
      (signed.version ≡ req.version)
      × (signed.hop_count ≡ req.hop_count)
      × (signed.target_idc ≡ req.target_idc)
      × ((psk ≡ "")
          ⊎ ((psk ≢ "")
              × (signed.timestamp ≡ now)
              × (signed.signature ≡ hmac psk (signed_text signed))))
unfolding sign_request compute_hmac signed_text
sign_request_lem hmac now req psk =
    if_both
      (λ (r : HandshakeRequest).
        (r.version ≡ req.version)
        × (r.hop_count ≡ req.hop_count)
        × (r.target_idc ≡ req.target_idc)
        × ((psk ≡ "")
            ⊎ ((psk ≢ "") × (r.timestamp ≡ now) × (r.signature ≡ hmac psk (signed_text r)))))
      (psk == "") (λ t. (refl, refl, refl, inl ((string_eq.beq_iff psk "").0 t)))
      (λ t. (refl, refl, refl, inr ((equal-or-not psk "").0 t, refl, refl)))

-- A request that a dialer signs is accepted by every server with the same key whose clock is at most
-- 60 seconds off, if it has this version, a target and at most 16 hops; whatever the HMAC is.
pub answer_handshake-sign_request :
    (hmac : String → String → String) (describe : HandshakeError → String) (node_id psk : String)
    (signed_at now : ℤ) (req : HandshakeRequest)
    → req.version ≡ pos 1
    → ltz (pos 16) req.hop_count ≡ false
    → req.target_idc ≢ ""
    → magnitude (now -ℤ signed_at) ≤ 60
    → answer_handshake hmac describe node_id psk now (sign_request hmac signed_at req psk)
      ≡ (ok_response node_id, true)
unfolding answer_handshake
answer_handshake-sign_request hmac describe node_id psk signed_at now req v h t d =
    let (x, y, z, s) = sign_request_lem hmac signed_at req psk in
    let c = (check_handshake-none signed).1 (x ∙ v, ap (ltz (pos 16)) y ∙ h, λ e. t (sym z ∙ e)) in
    let w : verify_request hmac now signed psk ≡ none =
      (verify_request-none hmac now signed psk).1 (elim s [
        | inl e ↦ inl e
        | inr (n, f, g) ↦ inr (n, subst (λ a. magnitude (now -ℤ a) ≤ 60) (sym f) d, g)
      ]) in
    ground (arith, c, w)
  where
    signed : HandshakeRequest
    signed = sign_request hmac signed_at req psk
