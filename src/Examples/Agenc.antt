-- ===== src/Examples/Agenc.antt =====
-- The provider's round trip at concrete inputs.
use nexus_client.Prelude.{◌≡◌, ◌≢◌, ◌↔◌, refl, false, List, [], ◌∷◌, ◌++◌, ok, All}
use nexus_client.External.Solana.{Instruction}
use nexus_client.Agenc.Tx.{check_all, assert_expected}
use nexus_client.Agenc.Tx.Guard.{IsExpected, assert_expected_iff}
use nexus_client.Agenc.Tx.Foreign.{check_all_foreign}
use nexus_client.Agenc.Worker.{claim_disc, worker_roundtrip}
use nexus_client.Agenc.Worker.Signing.{IsGuarded, worker_roundtrip-IsGuarded}
use nexus_client.Examples.Json.{sample_serde}
use nexus_client.Examples.Parts.{
  sample_solana, sample_servers, sample_ed25519, sample_hashing, sample_worker_cfg, sample_meta,
  sample_nonce, agenc_key, other_key, claim_ix, transfer_ix,
}

assert_expected_iff_example :
    (assert_expected sample_solana "tx" agenc_key (claim_disc ∷ []) ≡ ok tt)
    ↔ ((msg : List Instruction) × IsExpected sample_solana "tx" agenc_key (claim_disc ∷ []) msg)
assert_expected_iff_example = assert_expected_iff sample_solana "tx" agenc_key (claim_disc ∷ [])

differ : other_key ≢ agenc_key
differ e = cc

check_all_foreign_example :
    check_all
      (agenc_key ∷ other_key ∷ [])
      agenc_key
      (claim_disc ∷ [])
      ([] ++ transfer_ix ∷ claim_ix ∷ [])
      false
    ≡ check_all (agenc_key ∷ other_key ∷ []) agenc_key (claim_disc ∷ []) ([] ++ claim_ix ∷ []) false
check_all_foreign_example =
    check_all_foreign (agenc_key ∷ other_key ∷ []) agenc_key (claim_disc ∷ []) [] (claim_ix ∷ [])
      transfer_ix other_key false refl differ

worker_roundtrip-IsGuarded_example :
    All
      (IsGuarded sample_serde sample_servers sample_solana sample_ed25519 sample_hashing)
      (worker_roundtrip sample_serde sample_servers sample_solana sample_ed25519 sample_hashing
        sample_worker_cfg sample_nonce "task" "artifact" sample_meta []).1
worker_roundtrip-IsGuarded_example =
    worker_roundtrip-IsGuarded sample_serde sample_servers sample_solana sample_ed25519
      sample_hashing sample_worker_cfg sample_nonce "task" "artifact" sample_meta [] tt
