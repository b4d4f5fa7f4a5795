-- ===== src/Agenc/Tx/Foreign.antt =====
-- What `assert_expected` does not look at.
use nexus_client.Prelude.{
  ℕ, ◌≡◌, ◌≢◌, refl, Bool, some, List, [], ◌∷◌, ◌++◌, Result, ok, err, get_elem?, bytes_eq_iff,
  ok_and_then, arith,
}
use nexus_client.External.Solana.{Instruction}
use nexus_client.Agenc.Tx.{TxError, check_ix, check_all}

module _ (keys : List (List ℕ)) (program : List ℕ) (expected : List (List ℕ)) where
  check_ix_foreign :
      (prog data_ : List ℕ) (saw : Bool)
      → prog ≢ program
      → check_ix (some prog) program expected data_ saw ≡ ok saw
  unfolding check_ix
  check_ix_foreign prog data_ saw h = ground (arith, bytes_eq_iff prog program)

  -- An instruction of another program, whatever it does and wherever it stands, changes nothing in the
  -- answer of the check.
  pub check_all_foreign :
      (before later : List Instruction) (ix : Instruction) (prog : List ℕ) (saw : Bool)
      → get_elem? keys ix.program_id_index ≡ some prog
      → prog ≢ program
      → check_all keys program expected (before ++ ix ∷ later) saw
        ≡ check_all keys program expected (before ++ later) saw
  unfolding check_all
  check_all_foreign [] later ix prog saw found h =
      rw (found, check_ix_foreign prog ix.instruction_data saw h)
  check_all_foreign (first ∷ before) later ix prog saw found h =
      ap_chain
        (check_ix (get_elem? keys first.program_id_index) program expected first.instruction_data
          saw)
        (λ saw'. check_all_foreign before later ix prog saw' found h)
    where
      ap_chain :
          (r : Result Bool TxError) {f g : Bool → Result Bool TxError}
          → ((b : Bool) → f b ≡ g b)
          → ok_and_then r f ≡ ok_and_then r g
      ap_chain (ok a) e = e a
      ap_chain (err x) e = refl
