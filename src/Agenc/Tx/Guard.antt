-- ===== src/Agenc/Tx/Guard.antt =====
-- What `assert_expected` guarantees.
use nexus_client.Prelude.{
  ℕ, ◌≤◌, ◌≡◌, ◌↔◌, ◌⊎◌, Bool, true, false, Option, none, some, List, [], ◌∷◌, String, ok, length,
  take, get_elem?, contains_bytes, bytes_eq, bytes_eq_iff, ok_and_then-eq-ok, Bool-cases, inl, inr,
  All, arith, refl,
}
use nexus_client.External.Solana.{Solana, Instruction}
use nexus_client.Agenc.Tx.{check_ix, check_all, require_seen, decode_tx, assert_expected}

module _ (keys : List (List ℕ)) (program : List ℕ) (expected : List (List ℕ)) where
  -- The instruction's program is among the keys; and if it is the expected one, the first eight bytes of
  -- the data are a permitted discriminator.
  abbrev pub IsPermitted : Instruction → Type 0
  IsPermitted ix =
      (prog : List ℕ) × (get_elem? keys ix.program_id_index ≡ some prog)
      × (prog ≡ program
          → (8 ≤ length ix.instruction_data)
            × (contains_bytes expected (take 8 ix.instruction_data) ≡ true))

  abbrev pub Targets : List Instruction → Type 0
  Targets [] = ⊥
  Targets (ix ∷ ixs) = (get_elem? keys ix.program_id_index ≡ some program) ⊎ Targets ixs

  check_ix_sound :
      (p : Option (List ℕ)) (data_ : List ℕ) (saw saw' : Bool)
      → check_ix p program expected data_ saw ≡ ok saw'
      → (prog : List ℕ) × (p ≡ some prog)
        × (prog ≡ program → (8 ≤ length data_) × (contains_bytes expected (take 8 data_) ≡ true))
        × (saw' ≡ true → (saw ≡ true) ⊎ (p ≡ some program))
  unfolding check_ix
  check_ix_sound none data_ saw saw' e = cc
  check_ix_sound (some prog) data_ saw saw' e = (
    prog,
    refl,
    λ same. ground (arith, bytes_eq_iff prog program),
    λ seen. ground (arith, bytes_eq_iff prog program),
  )

  check_all_sound :
      (ixs : List Instruction) (saw saw' : Bool)
      → check_all keys program expected ixs saw ≡ ok saw'
      → All IsPermitted ixs × (saw' ≡ true → (saw ≡ true) ⊎ Targets ixs)
  unfolding check_all
  check_all_sound [] saw saw' e = (tt, λ seen. ground arith)
  check_all_sound (ix ∷ ixs) saw saw' e =
      let (mid, here, later) = ok_and_then-eq-ok _ _ e in
      let (prog, found, permitted, seen) =
        check_ix_sound (get_elem? keys ix.program_id_index) ix.instruction_data saw mid here in
      let (rest, seen_later) = check_all_sound ixs mid saw' later in
      (
        ((prog, found, permitted), rest),
        λ s. merge saw mid ix.program_id_index ixs (seen_later s) seen,
      )
    where
      merge :
          (saw mid : Bool) (i : ℕ) (ixs : List Instruction)
          → (mid ≡ true) ⊎ Targets ixs
          → (mid ≡ true → (saw ≡ true) ⊎ (get_elem? keys i ≡ some program))
          → (saw ≡ true) ⊎ ((get_elem? keys i ≡ some program) ⊎ Targets ixs)
      merge saw mid i ixs (inr t) k = inr (inr t)
      merge saw mid i ixs (inl m) k = ground (arith, k m)

  Targets-rest :
      (ix : Instruction) (ixs : List Instruction) (prog : List ℕ) (saw : Bool)
      → get_elem? keys ix.program_id_index ≡ some prog
      → bytes_eq prog program ≡ false
      → (saw ≡ true) ⊎ Targets (ix ∷ ixs)
      → (saw ≡ true) ⊎ Targets ixs
  Targets-rest ix ixs prog saw e other (inl s) = inl s
  Targets-rest ix ixs prog saw e other (inr (inl h)) = ground (arith, bytes_eq_iff prog program)
  Targets-rest ix ixs prog saw e other (inr (inr t)) = inr t

  check_all_complete :
      (ixs : List Instruction) (saw : Bool)
      → All IsPermitted ixs
      → (saw ≡ true) ⊎ Targets ixs
      → check_all keys program expected ixs saw ≡ ok true
  unfolding check_all check_ix
  check_all_complete [] saw h (inl s) = rw s
  check_all_complete [] saw h (inr t) = absurd t
  check_all_complete (ix ∷ ixs) saw ((prog, e, permitted), h) t =
      elim (Bool-cases (bytes_eq prog program)) [
        | inl same ↦
            let (long, listed) = permitted ((bytes_eq_iff prog program).0 same) in
            rw e (ground (arith, check_all_complete ixs true h (inl refl)))
        | inr other ↦
            rw (e, other) (check_all_complete ixs saw h (Targets-rest ix ixs prog saw e other t))
      ]

module _ (C : Solana) where
  -- The text decodes to this message, every instruction of it is permitted, and at least one targets the
  -- program.
  abbrev pub IsExpected : String → List ℕ → List (List ℕ) → C.Message → Type 0
  IsExpected unsigned program expected msg =
      (decode_tx C unsigned ≡ ok msg)
      × All (IsPermitted (C.account_keys msg) program expected) (C.instructions msg)
      × Targets (C.account_keys msg) program expected (C.instructions msg)

  assert_expected_sound :
      (unsigned : String) (program : List ℕ) (expected : List (List ℕ))
      → assert_expected C unsigned program expected ≡ ok tt
      → (msg : C.Message) × IsExpected unsigned program expected msg
  unfolding assert_expected
  assert_expected_sound unsigned program expected e =
      let (msg, decoded, e') = ok_and_then-eq-ok _ _ e in
      let (saw, checked, seen) = ok_and_then-eq-ok _ _ e' in
      let (permitted, targets) =
        check_all_sound (C.account_keys msg) program expected (C.instructions msg) false saw
          checked in
      (msg, (decoded, permitted, strip (targets (require_seen-eq-ok saw seen))))
    where
      require_seen-eq-ok : (saw : Bool) → require_seen saw ≡ ok tt → saw ≡ true
      require_seen-eq-ok true h = refl
      require_seen-eq-ok false h = cc

      strip : {T : Type 0} → (false ≡ true) ⊎ T → T
      strip (inl h) = cc
      strip (inr t) = t

  assert_expected_complete :
      (unsigned : String) (program : List ℕ) (expected : List (List ℕ)) (msg : C.Message)
      → IsExpected unsigned program expected msg
      → assert_expected C unsigned program expected ≡ ok tt
  unfolding assert_expected
  assert_expected_complete unsigned program expected msg (decoded, permitted, targets) = rw (
    decoded,
    check_all_complete (C.account_keys msg) program expected (C.instructions msg) false permitted
        (inr targets),
  )

  -- `assert_expected` accepts exactly the texts that decode to a message of which every instruction has
  -- its program among the keys, every instruction of the expected program begins with a permitted
  -- 8-byte discriminator, and at least one instruction is of that program.
  pub assert_expected_iff :
      (unsigned : String) (program : List ℕ) (expected : List (List ℕ))
      → (assert_expected C unsigned program expected ≡ ok tt)
        ↔ ((msg : C.Message) × IsExpected unsigned program expected msg)
  assert_expected_iff unsigned program expected = (
    assert_expected_sound unsigned program expected,
    λ (msg, h). assert_expected_complete unsigned program expected msg h,
  )
