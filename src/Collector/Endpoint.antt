-- ===== src/Collector/Endpoint.antt =====
-- internal/metrics/handler.go: what the address of the metrics answers. The JSON encoder is an argument;
-- it writes a text, and may fail with another.
use go_loadbalancer.Prelude.{ℕ, ◌⊎◌, inl, inr, String}
use go_loadbalancer.Prelude.Int.{ℤ}
use go_loadbalancer.Metrics.{Snapshot, snapshot}
use go_loadbalancer.Collector.{Collector}

-- The text of a snapshot with status 200, or the error of the encoder with status 500.
pub data Answer : Type 0 where
  encoded : String → Answer
  error : String → ℕ → Answer

abbrev pub answered : String ⊎ String → Answer
answered (inl json) = encoded json
answered (inr e) = error e 500

unfoldable pub handler :
    (Snapshot → String ⊎ String) → (ℕ → ℕ → ℤ) → ℕ → String → Collector → Answer
unfolding snapshot
handler encode since now strategy c = answered (encode (snapshot since now strategy c.metrics))
