-- ===== src/Examples/Provider.antt =====
-- The registration at concrete inputs.
use nexus_client.Prelude.{[], ◌∷◌, ◌++◌, ok, All}
use nexus_client.External.Solana.{Solana, Instruction}
use nexus_client.Work.Provider.{register_disc, register}
use nexus_client.Work.Provider.Signing.{IsRegistration, register-IsRegistration}
use nexus_client.Examples.Json.{sample_serde}
use nexus_client.Examples.Parts.{sample_solana, sample_servers, sample_nonce}
use nexus_client.Examples.Work.{cfg}

abbrev register_ix : Instruction
register_ix = record { program_id_index = 0; instruction_data = register_disc ++ 5 ∷ [] }

-- Every text decodes to a registration.
abbrev registering : Solana
registering = record sample_solana { deserialize = λ bytes. ok (register_ix ∷ []) }

register-IsRegistration_example :
    All
      (IsRegistration sample_serde sample_servers registering)
      (register sample_serde sample_servers registering cfg sample_nonce []).1
register-IsRegistration_example =
    register-IsRegistration sample_serde sample_servers registering cfg sample_nonce [] tt
