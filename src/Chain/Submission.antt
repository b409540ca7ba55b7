-- ===== src/Chain/Submission.antt =====
-- What a submission sends to the network.
use edustell.Common.{
  ok_or, String, ◌≡◌, Option, none, some, true, false, ◌∷◌, ok, arith, find, any, is_some,
  str_eq_iff, succeeds, ap, ◌∙◌,
}
use edustell.Common.Actions.{attempt, continue-eq-ok}
use edustell.Domain.Records.{Contribution, SavingsVault}
use edustell.Chain.Types.{
  ExternalReference, BlockchainTransactionRecord, BlockchainFacadeError, ChainEnv,
}
use edustell.Chain.Repository.{
  ChainDb, record_key, reference_key, has_key, is_operation, send, constrain, create_reference,
  find_one, record_row, create_record, find_by_idempotency_key,
}
use edustell.Chain.Handlers.{
  query, SubmitContributionOnchainInput, ContributionOnchainSubmission, build_prepared_transaction,
  find_contract_reference, store_tx_hash_reference, submit, new_record, submit_or_replay,
  submit_contribution_onchain, record_audit,
}
use edustell.Store.Contributions.{find_contribution, find_vault}

module _ {Boundary Prepared : Type 0} where
  find_contract_reference-same :
      (env : ChainEnv Boundary Prepared) (vault : SavingsVault) (s : ChainDb)
      → (find_contract_reference env vault s).1 ≡ s
  unfolding find_contract_reference find_one send
  find_contract_reference-same env vault s = ground arith

  -- A key that has a record: nothing is sent.
  recorded-unsent :
      (env : ChainEnv Boundary Prepared) (input : SubmitContributionOnchainInput Boundary)
      (s : ChainDb)
      → is_some (find (has_key input.idempotency_key) s.records) ≡ true
      → (submit_contribution_onchain env input s).1 ≡ s
  unfolding submit_contribution_onchain find_contract_reference find_one send
      find_by_idempotency_key submit_or_replay build_prepared_transaction
  recorded-unsent env input s recorded = ground arith

  -- A submission that succeeds leaves a record of its key.
  replay-recorded :
      (env : ChainEnv Boundary Prepared) (input : SubmitContributionOnchainInput Boundary)
      (c : Contribution) (v : SavingsVault) (x : ExternalReference) (s t : ChainDb)
      (r : ContributionOnchainSubmission Prepared)
      → submit_or_replay env input c v x none s ≡ (ok r, t)
      → is_some (find (has_key input.idempotency_key) t.records) ≡ true
  unfolding submit_or_replay build_prepared_transaction submit create_record record_row new_record
      store_tx_hash_reference create_reference record_audit send constrain find
  replay-recorded env input c v x s t r h =
      ground (arith, str_eq_iff input.idempotency_key input.idempotency_key)

  looked-recorded :
      (env : ChainEnv Boundary Prepared) (key : String) (s u : ChainDb)
      (existing : Option BlockchainTransactionRecord)
      → find_by_idempotency_key env key s ≡ (ok existing, u)
      → is_some (find (has_key key) u.records) ≡ is_some existing
  unfolding find_by_idempotency_key send
  looked-recorded env key s u existing h = ground arith

  replay-kept :
      (env : ChainEnv Boundary Prepared) (input : SubmitContributionOnchainInput Boundary)
      (c : Contribution) (v : SavingsVault) (x : ExternalReference)
      (existing : BlockchainTransactionRecord) (s : ChainDb)
      → (submit_or_replay env input c v x (some existing) s).1 ≡ s
  unfolding submit_or_replay build_prepared_transaction
  replay-kept env input c v x existing s = ground arith

  either-recorded :
      (env : ChainEnv Boundary Prepared) (input : SubmitContributionOnchainInput Boundary)
      (c : Contribution) (v : SavingsVault) (x : ExternalReference)
      (existing : Option BlockchainTransactionRecord) (s t : ChainDb)
      (r : ContributionOnchainSubmission Prepared)
      → is_some (find (has_key input.idempotency_key) s.records) ≡ is_some existing
      → submit_or_replay env input c v x existing s ≡ (ok r, t)
      → is_some (find (has_key input.idempotency_key) t.records) ≡ true
  either-recorded env input c v x none s t r looked h = replay-recorded env input c v x s t r h
  either-recorded env input c v x (some e) s t r looked h =
      grind (arith, looked, h, replay-kept env input c v x e s)

  -- A submission that succeeds has a record of its key, which it wrote or found.
  submit-recorded :
      (env : ChainEnv Boundary Prepared) (input : SubmitContributionOnchainInput Boundary)
      (s t : ChainDb) (r : ContributionOnchainSubmission Prepared)
      → submit_contribution_onchain env input s ≡ (ok r, t)
      → is_some (find (has_key input.idempotency_key) t.records) ≡ true
  unfolding submit_contribution_onchain
  submit-recorded env input s t r h =
      let (found, s0, e0, h0) =
        continue-eq-ok (query (find_contribution env.env input.contribution_id) s) _ r t h in
      let (c, s1, e1, h1) =
        continue-eq-ok (attempt (ok_or found BlockchainFacadeError.not_found) s0) _ r t h0 in
      let (found_vault, s2, e2, h2) =
        continue-eq-ok (query (find_vault env.env c.vault_id) s1) _ r t h1 in
      let (v, s3, e3, h3) =
        continue-eq-ok (attempt (ok_or found_vault BlockchainFacadeError.not_found) s2) _ r t h2 in
      let (x, s4, e4, h4) = continue-eq-ok (find_contract_reference env v s3) _ r t h3 in
      let (existing, s5, e5, h5) =
        continue-eq-ok (find_by_idempotency_key env input.idempotency_key s4) _ r t h4 in
      either-recorded env input c v x existing s5 t r
        (looked-recorded env input.idempotency_key s4 s5 existing e5) h5

  -- After a submission that succeeds, another one with its key sends nothing to the network and writes
  -- nothing, whatever it answers.
  pub submit_contribution_onchain-once :
      (env later : ChainEnv Boundary Prepared)
      (input again : SubmitContributionOnchainInput Boundary) (s t : ChainDb)
      (r : ContributionOnchainSubmission Prepared)
      → submit_contribution_onchain env input s ≡ (ok r, t)
      → again.idempotency_key ≡ input.idempotency_key
      → (submit_contribution_onchain later again t).1 ≡ t
  submit_contribution_onchain-once env later input again s t r h same =
      recorded-unsent later again t
        (ap (λ k. is_some (find (has_key k) t.records)) same ∙ submit-recorded env input s t r h)

  -- For a contribution that has a record, a request whose key has none sends the transaction, if it is
  -- prepared and the network takes it, and then fails and leaves the records as they are.
  pub submit_or_replay-doubled :
      (env : ChainEnv Boundary Prepared) (input : SubmitContributionOnchainInput Boundary)
      (c : Contribution) (v : SavingsVault) (x : ExternalReference) (prepared : Prepared)
      (tx_hash : String) (s : ChainDb)
      → any (is_operation "contribution" c.id "vault_contribution") s.records ≡ true
      → build_prepared_transaction env c x input.signing_boundary input.idempotency_key s
        ≡ (ok prepared, s)
      → env.submit_transaction input.idempotency_key prepared input.signing_boundary ≡ ok tx_hash
      → (succeeds ((submit_or_replay env input c v x none s).0) ≡ false)
        × ((submit_or_replay env input c v x none s).1.submitted ≡ tx_hash ∷ s.submitted)
        × ((submit_or_replay env input c v x none s).1.records ≡ s.records)
  unfolding submit_or_replay submit create_record new_record send constrain
  submit_or_replay-doubled env input c v x prepared tx_hash s recorded ready sent = ground arith
