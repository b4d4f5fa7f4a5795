-- ===== src/Agenc/Builder/Tier.antt =====
-- The tier: `drive_builder` of agenc-worker/src/builder.rs pins it once, and before it approves the plan.
use nexus_client.Prelude.{◌≡◌, Bool, true, some, List, String}
use nexus_client.External.Serde.{Serde}
use nexus_client.Agenc.Net.{Event, Mcp}
use nexus_client.Agenc.Net.Ensures.{Ensures}
use nexus_client.Agenc.Builder.{action_for}
use nexus_client.Agenc.Builder.Pinned.{Pinned}

module _ (S : Serde) (mcp : Mcp S) where
  open S use {Value, get}

  module _ (session_id : String) where
    -- After the pin, the plan is approved only if the tier is pinned.
    Ready : String → String → Bool → List (Event S) → Type 0
    Ready phase status p h =
        Pinned S p h × (action_for phase status ≡ some "approve_plan" → p ≡ true)
