-- ===== src/Reply.antt =====
-- What a route answers: an error with its status, or a value with 200 or 201.
use troxe_host.Common.{ℕ, Text}

pub data Reply {ℓ} (A : Type ℓ) : Type ℓ where
  sent : A → Reply A
  failed : ℕ → Text → Reply A
