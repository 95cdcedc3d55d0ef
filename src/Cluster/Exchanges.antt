-- ===== src/Cluster/Exchanges.antt =====
-- What holds of every order of the steps of master and workers.
use rest_technosphere_cpp_se.Base.{ℕ, ◌<◌, ◌≡◌, none, some, [], ◌∷◌, ◌==◌, false}
use rest_technosphere_cpp_se.Cluster.{CommandMessage}
use rest_technosphere_cpp_se.Cluster.Queue.{Exchange, IsQuery}
use rest_technosphere_cpp_se.Cluster.Answers.{Belongs}

-- Where the one message is that there is while the master waits.
pub data Phase (s : Exchange) : Type 0 where
  idle : s.waiting ≡ none → s.queue ≡ [] → ((i : ℕ) → s.workers i ≡ none) → Phase s
  queued :
      (asked msg : CommandMessage)
      → s.waiting ≡ some asked
      → s.queue ≡ msg ∷ []
      → ((i : ℕ) → s.workers i ≡ none)
      → Belongs msg asked
      → IsQuery msg.operation
      → 0 < msg.mtype
      → msg.mtype < 5
      → Phase s
  working :
      (asked msg : CommandMessage) (i : ℕ)
      → s.waiting ≡ some asked
      → s.queue ≡ []
      → s.workers i ≡ some msg
      → ((j : ℕ) → (i == j) ≡ false → s.workers j ≡ none)
      → Belongs msg asked
      → IsQuery msg.operation
      → Phase s
