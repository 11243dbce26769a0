-- ===== src/LegacyPallet/Soundness.antt =====
-- The older pallet's storage is sound after every sequence of calls.
use frost_substrate.Prelude.{
  arith, ◌≡◌, refl, ◌≤◌, Bool, true, false, Bytes, ok, lookup, leb_iff, leb, >>=-eq-ok,
  map_err-eq-ok, ok_or-eq-ok, ok_or, map_err, ap, ◌∙◌,
}
use frost_substrate.External.Frost.{ProofType, merkle, signature, basic, custom}
use frost_substrate.External.State.{StateTransition}
use frost_substrate.LegacyPallet.{
  ℕ, LegacyPallet, LegacyConfig, LegacyError, LegacyRuntime, LegacyGenerator, ensure, generator_for,
  record_transition, generate_legacy_proof, verify_message,
}
use frost_substrate.LegacyPallet.Storage.{
  Meaning, IsHonest, records, generates, verifies, updates, CalledFrom, at_genesis, by_call,
  IsSound,
}
use frost_substrate.LegacyPallet.Writes.{
  with_transition, with_proof, with_message, with_transition-IsSound, with_proof-IsSound,
  with_message-IsSound, update_latest_block-IsSound,
}

ensure-eq-ok : (b : Bool) (e : LegacyError) {u : Unit {0}} → ensure b e ≡ ok u → b ≡ true
ensure-eq-ok true e h = refl
ensure-eq-ok false e h = cc

module _ {C P M : Type 0} (meaning : Meaning C P M) (runtime : LegacyRuntime C P M)
    (honest : IsHonest meaning runtime) where
  record_transition-IsSound :
      (t : StateTransition C) (p p' : LegacyPallet C P M)
      → record_transition meaning.hashing runtime t p ≡ ok p'
      → IsSound meaning p
      → IsSound meaning p'
  unfolding record_transition with_transition
  record_transition-IsSound t p p' e s =
      let (u, signed, e1) = >>=-eq-ok (ensure runtime.signed_origin _) _ e in
      let (v, valid, e2) = >>=-eq-ok (ensure (runtime.validate_transition t) _) _ e1 in
      let (final, answered, e3) =
        >>=-eq-ok (map_err _ (runtime.is_final t.pre_state.block_ref)) _ e2 in
      let (w, finalized, e4) = >>=-eq-ok (ensure final _) _ e3 in
      let was_final =
        honest.final t.pre_state.block_ref
          (map_err-eq-ok _ _ answered ∙ ap ok (ensure-eq-ok final _ finalized)) in
      let same : p' ≡ with_transition meaning t p = cc e4 in
      rw same
        (with_transition-IsSound meaning t p (honest.valid t (ensure-eq-ok _ _ valid)) was_final s)

  within_limit :
      (q : P)
      → runtime.encoded_size q ≤ runtime.max_proof_size
      → meaning.encoded_size q ≤ meaning.limit
  within_limit q h = omega (arith, honest.same_size q, honest.same_limit)

  verified_proof :
      (m : M)
      → meaning.was_verified (runtime.message_proof m)
      → meaning.was_verified (meaning.message_proof m)
  verified_proof m h = rw (honest.same_proof m) at h

  generate_legacy_proof-IsSound :
      (h : Bytes) (t : ProofType) (p p' : LegacyPallet C P M)
      → generate_legacy_proof meaning.hashing runtime h t p ≡ ok p'
      → IsSound meaning p
      → IsSound meaning p'
  unfolding generate_legacy_proof with_proof
  generate_legacy_proof-IsSound h t p p' e s =
      let (u, signed, e1) = >>=-eq-ok (ensure runtime.signed_origin _) _ e in
      let (transition, found, e2) = >>=-eq-ok (ok_or _ (lookup h p.transitions)) _ e1 in
      let (generator, chosen, e3) = >>=-eq-ok (generator_for meaning.hashing runtime t) _ e2 in
      let (proof, made, e4) = >>=-eq-ok (map_err _ (generator.generate_proof transition _)) _ e3 in
      let (w, fits, e5) = >>=-eq-ok (ensure (leb (runtime.encoded_size proof) _) _) _ e4 in
      let small : runtime.encoded_size proof ≤ runtime.max_proof_size =
        (leb_iff _ _).0 (ensure-eq-ok _ _ fits) in
      let same : p' ≡ with_proof meaning h t proof p = cc e5 in
      rw same (
        with_proof-IsSound meaning h t proof p (transition, ok_or-eq-ok _ _ found)
          (within_limit proof small) s)

  -- Whichever generator is chosen, its yes is to be believed.
  chosen_verified :
      (t : ProofType) (generator : LegacyGenerator C P) (q : P) (c : LegacyConfig)
      → generator_for meaning.hashing runtime t ≡ ok generator
      → generator.verify_proof q c ≡ ok true
      → meaning.was_verified q
  chosen_verified merkle generator q c chosen h = honest.merkle_verified q c (cc)
  chosen_verified signature generator q c chosen h = honest.bls_verified q c (cc)
  chosen_verified basic generator q c chosen h = absurd (cc)
  chosen_verified (custom s) generator q c chosen h = absurd (cc)

  verify_message-IsSound :
      (m : M) (p p' : LegacyPallet C P M)
      → verify_message meaning.hashing runtime m p ≡ ok p'
      → IsSound meaning p
      → IsSound meaning p'
  unfolding verify_message with_message
  verify_message-IsSound m p p' e s =
      let proof = runtime.message_proof m in
      let (u, signed, e1) = >>=-eq-ok (ensure runtime.signed_origin _) _ e in
      let (v, valid, e2) = >>=-eq-ok (ensure (runtime.validate_message m) _) _ e1 in
      let (generator, chosen, e3) =
        >>=-eq-ok (generator_for meaning.hashing runtime (runtime.proof_type_of proof)) _ e2 in
      let (answer, answered, e4) =
        >>=-eq-ok (map_err _ (generator.verify_proof proof p.proof_config)) _ e3 in
      let (w, accepted, e5) = >>=-eq-ok (ensure answer _) _ e4 in
      let verified =
        chosen_verified (runtime.proof_type_of proof) generator proof p.proof_config chosen
          (map_err-eq-ok _ _ answered ∙ ap ok (ensure-eq-ok answer _ accepted)) in
      let same : p' ≡ with_message meaning m p = cc e5 in
      rw same (with_message-IsSound meaning m p (verified_proof m verified) s)

module _ {C P M : Type 0} (meaning : Meaning C P M) (runtimes : ℕ → LegacyRuntime C P M) where
  -- Let the answers of every runtime be honest: a transition that validates is valid, a block that the
  -- predicate calls final was final, and a proof that a generator accepts was verified. Then from a sound
  -- storage, as the empty one is, every sequence of calls leads to a sound one: each stored transition
  -- stands under its hash, is valid, and its source block was final; each stored proof belongs to a
  -- stored transition and is within the limit; each stored message stands under its hash with a proof
  -- that was verified; each event of a recorded transition, a generated proof or a verified message has
  -- its entry in the storage; and the latest block is that of the last event of a finalized state.
  pub CalledFrom-IsSound :
      (genesis : LegacyPallet C P M)
      → ((i : ℕ) → IsHonest meaning (runtimes i))
      → IsSound meaning genesis
      → {p : LegacyPallet C P M} → CalledFrom meaning.hashing runtimes genesis p
      → IsSound meaning p
  CalledFrom-IsSound genesis honest s at_genesis = s
  CalledFrom-IsSound genesis honest s (by_call (records i t e) from) =
      record_transition-IsSound meaning (runtimes i) (honest i) t _ _ e
        (CalledFrom-IsSound genesis honest s from)
  CalledFrom-IsSound genesis honest s (by_call (generates i h t e) from) =
      generate_legacy_proof-IsSound meaning (runtimes i) (honest i) h t _ _ e
        (CalledFrom-IsSound genesis honest s from)
  CalledFrom-IsSound genesis honest s (by_call (verifies i m e) from) =
      verify_message-IsSound meaning (runtimes i) (honest i) m _ _ e
        (CalledFrom-IsSound genesis honest s from)
  CalledFrom-IsSound genesis honest s (by_call (updates b) from) =
      update_latest_block-IsSound meaning b _ (CalledFrom-IsSound genesis honest s from)
