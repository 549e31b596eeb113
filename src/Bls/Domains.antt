-- ===== src/Bls/Domains.antt =====
-- Theorems on the domains of the signatures of src/crypto/bls.rs.
use preconfirmation_gateway.Common.{
  ◌≡◌, ◌≢◌, ◌∙◌, ◌⊎◌, inl, inr, Bool-cases, bytes_eq, bytes_eq→eq, bytes_eq_refl, refl, ap, sym,
  arith, true, [], ◌∷◌, ◌++◌, ◌==◌, ==_iff, length, ok, guard, >>=-eq-ok, guard-eq-ok, ok_or,
  ok-injective,
}
use preconfirmation_gateway.Types.{Bytes, Text, ConstraintsMessage, SignedDelegation}
use preconfirmation_gateway.Error.{invalid_hex, wrong_length}
use preconfirmation_gateway.Crates.{Crates}
use preconfirmation_gateway.Crypto.{strip_0x}
use preconfirmation_gateway.Bls.{
  BlsManager, verify_delegation_signature, abi_encode_delegation_message,
  abi_encode_constraints_message, calculate_signing_root, sign_constraints_message, new_manager,
  parse_application_gateway_domain, bls_pop_dst,
}

-- `Del` after a zero byte
abbrev pub del : Bytes
del = 0 ∷ b'D' ∷ b'e' ∷ b'l' ∷ []

prefix-eq : (a b m n : Bytes) → length a ≡ length b → a ++ m ≡ b ++ n → a ≡ b
prefix-eq [] [] m n p h = refl
prefix-eq [] (d ∷ b) m n p h = absurd (omega (arith, p))
prefix-eq (c ∷ a) [] m n p h = absurd (omega (arith, p))
prefix-eq (c ∷ a) (d ∷ b) m n p h =
    let first : c ≡ d = cc in
    let tails : a ++ m ≡ b ++ n = cc in let rest = prefix-eq a b m n (omega (arith, p)) tails in cc

module _ ⦃x : Crates⦄ where
  -- Two inputs of Keccak with one hash.
  pub record Collision : Type 0 where
    pub one : Bytes
    pub other : Bytes
    pub differ : one ≢ other
    pub same_hash : x.keccak one ≡ x.keccak other

  -- Different inputs have different hashes, or they collide.
  keccak-apart : (one other : Bytes) → one ≢ other → (x.keccak one ≢ x.keccak other) ⊎ Collision
  keccak-apart one other differ = elim (Bool-cases (bytes_eq (x.keccak one) (x.keccak other))) [
    | inl same ↦ inr (record {
      one = one;
      other = other;
      differ = differ;
      same_hash = bytes_eq→eq (x.keccak one) (x.keccak other) same;
    })
    | inr apart ↦
        inl (λ e. let same = bytes_eq_refl (x.keccak other) in let apart' = rw e at apart in cc)
  ]

  domain-length :
      (domain_hex : Text) (manager : BlsManager)
      → new_manager domain_hex ≡ ok manager
      → length manager.application_gateway_domain ≡ 4
  unfolding new_manager parse_application_gateway_domain
  domain-length domain_hex manager h =
      let (domain, p, e) = >>=-eq-ok (parse_application_gateway_domain domain_hex) _ h in
      let (decoded, q, h1) =
        >>=-eq-ok (ok_or (x.hex_decode (strip_0x domain_hex)) invalid_hex) _ p in
      let (u, r, h2) = >>=-eq-ok (guard (length decoded == 4) wrong_length) _ h1 in
      let four = (==_iff (length decoded) 4).0 (guard-eq-ok (length decoded == 4) wrong_length r) in
      let same : decoded ≡ domain = ok-injective h2 in
      let made = ap (λ (m : BlsManager). length m.application_gateway_domain) (ok-injective e) in
      sym made ∙ ap length (sym same) ∙ four

  -- What the signature of an accepted delegation signs, and what a constraints message under a key signs.
  pub record AreSeparate (d : SignedDelegation) (manager : BlsManager) (m : ConstraintsMessage)
      : Type 0 where
    pub encoded : Bytes
    pub encodes : abi_encode_delegation_message d.message ≡ ok encoded
    pub key_valid : x.blst_public_key_valid d.message.proposer ≡ true
    pub signature_valid : x.blst_signature_valid d.signature ≡ true
    pub verifies :
        x.blst_verify (x.keccak (del ++ encoded)) bls_pop_dst d.message.proposer d.signature ≡ true
    pub root : Bytes
    pub signs :
        (key : Bytes) → sign_constraints_message manager m key ≡ x.blst_sign root bls_pop_dst key
    pub apart : (root ≢ x.keccak (del ++ encoded)) ⊎ Collision

  -- An accepted delegation has a well-formed key and signature, and the key verifies the signature over the hash
  -- of the bytes 00 `Del` and the encoding of its message. No signature of constraints is made over that hash, short of
  -- a collision of Keccak, for a manager that could be created with any other domain.
  pub verify-AreSeparate :
      (d : SignedDelegation) (domain_hex : Text) (manager : BlsManager) (m : ConstraintsMessage)
      → verify_delegation_signature d ≡ ok true
      → new_manager domain_hex ≡ ok manager
      → manager.application_gateway_domain ≢ del
      → AreSeparate d manager m
  unfolding verify_delegation_signature sign_constraints_message calculate_signing_root
  verify-AreSeparate d domain_hex manager m h made other =
      let (encoded, p, h1) = >>=-eq-ok (abi_encode_delegation_message d.message) _ h in
      let (u, q, h2) = >>=-eq-ok _ _ h1 in
      let (v, r, h3) = >>=-eq-ok _ _ h2 in
      let domain = manager.application_gateway_domain in
      let four = domain-length domain_hex manager made in
      let body = abi_encode_constraints_message m in
      record {
        encoded = encoded;
        encodes = p;
        key_valid = guard-eq-ok _ _ q;
        signature_valid = guard-eq-ok _ _ r;
        verifies = ok-injective h3;
        root = x.keccak (domain ++ body);
        signs = λ key. refl;
        apart =
            keccak-apart (domain ++ body) (del ++ encoded)
              (λ e. other (prefix-eq domain del body encoded four e));
      }
