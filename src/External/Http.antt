-- ===== src/External/Http.antt =====
-- reqwest, as the answer to one request that the program hands it: no answer with the error's text, or a
-- status and a body. The clients have reqwest's default policy, so the answer is the last one, behind the
-- redirects that reqwest follows by itself.
use nexus_client.Prelude.{ℕ, ◌≡◌, ◌≤◌, ◌<◌, true, String, Bool, Option, some, ◌&&◌, leb, ltb, arith}

pub data Reply : Type 0 where
  failed : String → Reply
  answer : ℕ → String → Reply

-- `StatusCode::is_success`
abbrev pub is_success : ℕ → Bool
is_success status = leb 200 status && ltb status 300

-- The reply is an answer with a status of success and this text.
abbrev pub Says : Reply → String → Type 0
Says reply text = (status : ℕ) × (reply ≡ answer status text) × (200 ≤ status) × (status < 300)

-- The text of the reply reads as this value.
abbrev pub Reads {ℓ} : {A : Type ℓ} → (String → Option A) → Reply → A → Type ℓ
Reads from_str reply a = (text : String) × Says reply text × (from_str text ≡ some a)

pub is_success_bounds : (status : ℕ) → is_success status ≡ true → (200 ≤ status) × (status < 300)
is_success_bounds status h = (ground arith, ground arith)

pub is_success_of_bounds : (status : ℕ) → 200 ≤ status → status < 300 → is_success status ≡ true
is_success_of_bounds status h k = ground arith
