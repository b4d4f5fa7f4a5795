-- ===== src/Agenc/Builder/Pinned.antt =====
-- What the tool calls of agenc-worker/src/builder.rs say of the tier: whether it is pinned, and rightly.
use nexus_client.Prelude.{
  ℕ, ◌≡◌, refl, ap, ◌∙◌, Bool, true, false, not, ◌&&◌, Bool-cases, eq_iff, inl, inr, Option, none,
  some, List, [], ◌∷◌, ◌++◌, String, ◌==◌, arith, and_then, if◌then◌else◌,
}
use nexus_client.External.Serde.{Serde, json}
use nexus_client.Agenc.Net.{Event, called, slept, signed, Mcp, sleep, record_signing, pure}
use nexus_client.Agenc.Net.Ensures.{Ensures, Ensures-pure}
use nexus_client.Agenc.Builder.Calls.{call-Ensures}
use nexus_client.Agenc.Builder.{BuilderError, call, action_for, tier_args, advance_args}

module _ (S : Serde) where
  open S use {Value, get, as_str, string, as_str-string, get-object, map_get-insert}

  -- The `action` of the arguments is the approval of the plan.
  abbrev approves : Option String → Bool
  approves none = false
  approves (some action) = action == "approve_plan"

  abbrev approves_plan : Value → Bool
  approves_plan args = approves (and_then (get args "action") as_str)

  -- The `tier` of the arguments is the community tier.
  abbrev is_community : Option String → Bool
  is_community none = false
  is_community (some t) = t == "community"

  abbrev pins_community : Value → Bool
  pins_community args = is_community (and_then (get args "tier") as_str)

  -- Whether the community tier has been pinned, by the tool calls; `none` once a tier is pinned again, or one
  -- that is not the community tier, or the plan is approved without it.
  abbrev pub after_call : String → Value → Bool → Option Bool
  after_call name args pinned =
      if name == "nexus_builder_tier"
      then (if pinned then none else if pins_community args then some true else none)
      else if name == "nexus_builder_advance" && approves_plan args
      then (if pinned then some true else none)
      else some pinned

  abbrev tier_after : Option Bool → Event S → Option Bool
  tier_after none e = none
  tier_after (some pinned) (called name args) = after_call name args pinned
  tier_after (some pinned) _ = some pinned

  abbrev pub tier : Option Bool → List (Event S) → Option Bool
  tier p [] = p
  tier p (e ∷ h) = tier (tier_after p e) h

  tier-append :
      (p : Option Bool) (h : List (Event S)) (e : Event S)
      → tier p (h ++ e ∷ []) ≡ tier_after (tier p h) e
  tier-append p [] e = refl
  tier-append p (x ∷ h) e = tier-append (tier_after p x) h e

  -- Since the start, the tier has been pinned or not, and rightly.
  abbrev pub Pinned : Bool → List (Event S) → Type 0
  Pinned pinned h = tier (some false) h ≡ some pinned

  abbrev pub IsTiered : List (Event S) → Type 0
  IsTiered h = (pinned : Bool) × Pinned pinned h

  pub approves-advance_args :
      (session_id action : String)
      → approves_plan (advance_args S session_id action) ≡ (action == "approve_plan")
  unfolding json
  approves-advance_args session_id action = simp (get-object, map_get-insert, as_str-string)

  pub pins_community-tier_args :
      (session_id : String) → pins_community (tier_args S session_id) ≡ true
  unfolding json
  pins_community-tier_args session_id = simp (get-object, map_get-insert, as_str-string)

  pub approval_step :
      (action : String) (p : Bool)
      → (some action ≡ some "approve_plan" → p ≡ true)
      → (if action == "approve_plan" then (if p then some true else none) else some p) ≡ some p
  approval_step action p k = elim (Bool-cases (action == "approve_plan")) [
    | inl same ↦ rw (same, k (ap some ((eq_iff action "approve_plan").0 same))) refl
    | inr other ↦ rw other refl
  ]

  -- The plan is approved only where it waits for its approval.
  pub approve_plan_waits :
      (phase status : String)
      → action_for phase status ≡ some "approve_plan"
      → (phase == "plan" && status == "waiting_approval") ≡ true
  unfolding action_for
  approve_plan_waits phase status h =
      ground (arith, eq_iff "next_task" "approve_plan", eq_iff "approve_spec" "approve_plan")

  pub pinned_of_not : (waits p : Bool) → (waits && not p) ≡ false → waits ≡ true → p ≡ true
  pinned_of_not waits p h k = ground arith

  module _ (mcp : Mcp S) where
    moved :
        (h : List (Event S)) (e : Event S) (p : Option Bool) (q : Option Bool)
        → tier (some false) h ≡ p
        → tier_after p e ≡ q
        → tier (some false) (h ++ e ∷ []) ≡ q
    moved h e p q t k = tier-append (some false) h e ∙ ap (λ o. tier_after o e) t ∙ k

    -- One call that takes the tier from `p` to `q`.
    pub call-Pinned :
        (name : String) (args : Value) (p q : Bool)
        → after_call name args p ≡ some q
        → Ensures (Pinned p) (call S mcp name args) (λ v h. Pinned q h) (λ e h. IsTiered h)
    call-Pinned name args p q k =
        call-Ensures S mcp name args (λ h v t _. moved h _ (some p) (some q) t k)
          (λ h e t. (q, moved h _ (some p) (some q) t k))

    pub sleep-Pinned :
        (secs : ℕ) (p : Bool)
        → Ensures (Pinned p) (sleep secs) (λ v h. Pinned p h) (λ (e : BuilderError) h. IsTiered h)
    unfolding sleep
    sleep-Pinned secs p = record { at = λ h t. moved h (slept secs) (some p) (some p) t refl }

    pub signing-Pinned :
        (bytes : List ℕ) (p : Bool)
        → Ensures
            (Pinned p)
            (record_signing bytes)
            (λ v h. Pinned p h)
            (λ (e : BuilderError) h. IsTiered h)
    unfolding record_signing
    signing-Pinned bytes p = record { at = λ h t. moved h (signed bytes) (some p) (some p) t refl }

    pub pure-Pinned :
        {A : Type 0} (a : A) (p : Bool)
        → Ensures (Pinned p) (pure a) (λ v h. Pinned p h) (λ (e : BuilderError) h. IsTiered h)
    pure-Pinned a p = Ensures-pure a (λ h t. t)

    -- The state of the tier may be forgotten.
    pub promote-Tiered :
        (name : String) (args : Value)
        → ((p : Bool) → after_call name args p ≡ some p)
        → Ensures IsTiered (call S mcp name args) (λ v h. IsTiered h) (λ e h. IsTiered h)
    promote-Tiered name args k =
        call-Ensures S mcp name args (λ h v (p, t) _. (p, moved h _ (some p) (some p) t (k p)))
          (λ h e (p, t). (p, moved h _ (some p) (some p) t (k p)))
