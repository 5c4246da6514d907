-- ===== src/Adapters/BitVmLaws.antt =====
-- What src/executor/bitvm.rs accepts.
use conxian_nexus.Prelude.{
  ◌≡◌, refl, ap, ◌∙◌, inl, inr, Bool, true, false, some, List, Text, Bool-cases,
}
use conxian_nexus.Prelude.Result.{Result, ok, err, ok_or, >>=-eq-ok, ok_inj, ok_or-some}
use conxian_nexus.State.Crypto.{Bytes, Crypto}
use conxian_nexus.Adapters.Evm.{is_hash}
use conxian_nexus.Adapters.BitVm.{
  Groth16, BitVmTransition, BitVmVerificationResult, TransitionRow, read_inputs, check_proof,
  conclude, verify_transition,
}

module _ (c : Crypto) (g : Groth16) where
  open c use {hex_decode}
  open g use {Proof, VerifyingKey, Fr, proof_of, key_of, verify}

  -- The verifier accepts the proof that the transition carries, for its key and its inputs.
  pub record IsProved (t : BitVmTransition) : Type 0 where
    pub proof_bytes : Bytes
    pub vk_bytes : Bytes
    pub proof : Proof
    pub vk : VerifyingKey
    pub inputs : List Fr
    pub concatenated : Bytes
    pub proof_hex : hex_decode t.proof_bytes ≡ some proof_bytes
    pub vk_hex : hex_decode t.vk_bytes ≡ some vk_bytes
    pub proof_read : proof_of proof_bytes ≡ some proof
    pub vk_read : key_of vk_bytes ≡ some vk
    pub inputs_read : read_inputs c g t.public_inputs ≡ ok (inputs, concatenated)
    pub accepted : verify vk inputs proof ≡ some true

  check_proof_sound :
      (t : BitVmTransition) (row : TransitionRow) → check_proof c g t ≡ ok (true, row) → IsProved t
  unfolding check_proof
  check_proof_sound t row h =
      let (proof_bytes, e1, h1) = >>=-eq-ok (ok_or (hex_decode t.proof_bytes) _) _ h in
      let (vk_bytes, e2, h2) = >>=-eq-ok (ok_or (hex_decode t.vk_bytes) _) _ h1 in
      let (proof, e3, h3) = >>=-eq-ok (ok_or (proof_of proof_bytes) _) _ h2 in
      let (vk, e4, h4) = >>=-eq-ok (ok_or (key_of vk_bytes) _) _ h3 in
      let ((inputs, concatenated), e5, h5) = >>=-eq-ok (read_inputs c g t.public_inputs) _ h4 in
      let (valid, e6, h6) = >>=-eq-ok (ok_or (verify vk inputs proof) _) _ h5 in
      let is : valid ≡ true = ap (λ (p : Bool × TransitionRow). p.0) (ok_inj h6) in
      record {
        proof_bytes = proof_bytes;
        vk_bytes = vk_bytes;
        proof = proof;
        vk = vk;
        inputs = inputs;
        concatenated = concatenated;
        proof_hex = ok_or-some _ _ e1;
        vk_hex = ok_or-some _ _ e2;
        proof_read = ok_or-some _ _ e3;
        vk_read = ok_or-some _ _ e4;
        inputs_read = e5;
        accepted = ok_or-some _ _ e6 ∙ ap some is;
      }

  conclude_sound :
      (runs : Bool) (t : BitVmTransition) (checked : Result (Bool × TransitionRow) Text)
      (rows : List (Text × TransitionRow)) (result : BitVmVerificationResult)
      → (conclude c g runs t checked rows).1 ≡ ok result
      → result.valid ≡ true
      → (row : TransitionRow) × (checked ≡ ok (true, row))
  unfolding conclude
  conclude_sound runs t (err e) rows result h v = cc
  conclude_sound runs t (ok (true, row)) rows result h v = (row, refl)
  conclude_sound runs t (ok (false, row)) rows result h v =
      absurd (cc (ap (λ (r : BitVmVerificationResult). r.valid) (ok_inj h), v))

-- When verify_transition answers that a transition is valid, both state roots are well formed, and
-- the verifier accepts the proof that the transition carries for its key and its public inputs,
-- all of them decoded from their hex texts.
pub verify_transition-IsProved :
    (c : Crypto) (g : Groth16) (runs : Bool) (t : BitVmTransition)
    (rows : List (Text × TransitionRow)) (result : BitVmVerificationResult)
    → (verify_transition c g runs t rows).1 ≡ ok result
    → result.valid ≡ true
    → (is_hash t.prev_state_root ≡ true) × (is_hash t.next_state_root ≡ true) × IsProved c g t
unfolding verify_transition
verify_transition-IsProved c g runs t rows result h v =
    elim (Bool-cases (is_hash t.prev_state_root)) [
      | inr e ↦ absurd (
          cc (
            ap (λ (r : BitVmVerificationResult). r.valid) (ok_inj (rw (verify_transition, e) at h)),
            v,
          ))
      | inl e ↦ elim (Bool-cases (is_hash t.next_state_root)) [
        | inr f ↦ absurd (
            cc (
              ap (λ (r : BitVmVerificationResult). r.valid)
                  (ok_inj (rw (verify_transition, e, f) at h)),
              v,
            ))
        | inl f ↦
            let (row, checked) =
              conclude_sound c g runs t (check_proof c g t) rows result
                (rw (verify_transition, e, f) at h) v in
            (e, f, check_proof_sound c g t row checked)
      ]
    ]
