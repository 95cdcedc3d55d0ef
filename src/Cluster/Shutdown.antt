-- ===== src/Cluster/Shutdown.antt =====
-- The end of the workers.
use rest_technosphere_cpp_se.Base.{
  ℕ, zero, suc, ◌+◌, ◌<◌, ◌≡◌, refl, true, false, List, [], ◌∷◌, ◌++◌, inl, inr, Option-cases,
  Bool-cases, ◌==◌, if◌then◌else◌, arith,
}
use native.Mathlib.Decide.{ℕ_discrete}
use rest_technosphere_cpp_se.Memory.{Mem}
use rest_technosphere_cpp_se.Command.{cmd_term}
use rest_technosphere_cpp_se.Cluster.{
  CommandMessage, dispatch_message, start, worker_id, worker_processes_count,
}
use rest_technosphere_cpp_se.Cluster.Master.{term_messages, shutdown_workers}

-- the messages that `msgrcv` hands to the receiver of a type, in their order
unfoldable pub messages_for : ℕ → List CommandMessage → List CommandMessage
messages_for mtype [] = []
messages_for mtype (msg ∷ rest) =
    if msg.mtype == mtype then msg ∷ messages_for mtype rest else messages_for mtype rest

messages_for-append :
    (mtype : ℕ) (xs ys : List CommandMessage)
    → messages_for mtype (xs ++ ys) ≡ messages_for mtype xs ++ messages_for mtype ys
unfolding messages_for
messages_for-append mtype [] ys = refl
messages_for-append mtype (x ∷ xs) ys = elim (Bool-cases (x.mtype == mtype)) [
  | inl e ↦ rw (e, messages_for-append mtype xs ys)
  | inr e ↦ rw (e, messages_for-append mtype xs ys)
]

abbrev pub term_message : CommandMessage → ℕ → CommandMessage
term_message unset i = record unset { mtype = worker_id i; operation = cmd_term }

messages_for-none :
    (unset : CommandMessage) (i n : ℕ)
    → n < suc i
    → messages_for (worker_id i) (term_messages unset n) ≡ []
unfolding term_messages worker_id messages_for
messages_for-none unset i zero h = refl
messages_for-none unset i (suc n) h =
    let other : (n + 2 == i + 2) ≡ false = ground arith in
    rw (
      messages_for-append (i + 2) (term_messages unset n) (term_message unset n ∷ []),
      messages_for-none unset i n (omega arith),
      other,
    )

messages_for-term_messages :
    (unset : CommandMessage) (i n : ℕ)
    → i < n
    → messages_for (worker_id i) (term_messages unset n) ≡ term_message unset i ∷ []
unfolding term_messages worker_id messages_for
messages_for-term_messages unset i zero h = absurd (omega arith)
messages_for-term_messages unset i (suc n) h = elim (ℕ_discrete n i) [
  | yes same ↦
      let hit : (n + 2 == n + 2) ≡ true = ground arith in
      rw (← same) (
        rw (
          messages_for-append (n + 2) (term_messages unset n) (term_message unset n ∷ []),
          messages_for-none unset n n (omega arith),
          hit,
        ))
  | no later ↦
      let other : (n + 2 == i + 2) ≡ false = ground arith in
      rw (
        messages_for-append (i + 2) (term_messages unset n) (term_message unset n ∷ []),
        messages_for-term_messages unset i n (omega arith),
        other,
      )
]

start-append_term :
    (table : Mem) (before rest : List CommandMessage) (unset : CommandMessage) (i : ℕ)
    → start table (before ++ (term_message unset i ∷ rest)) ≡ start table before
unfolding start
start-append_term table [] rest unset i = unfold dispatch_message in refl
start-append_term table (msg ∷ before) rest unset i =
    elim (Option-cases (dispatch_message table msg)) [
      | inl o ↦ rw (o, start)
      | inr ((answer, after), o) ↦ rw (o, start, start-append_term after before rest unset i)
    ]

-- `shutdown_workers` sends each worker that was started exactly one message, and when that message
-- comes the worker stops: what it has answered and written is what it had before.
pub shutdown_workers-start :
    (unset : CommandMessage) (i : ℕ) (table : Mem) (before rest : List CommandMessage)
    → i < worker_processes_count
    → (messages_for (worker_id i) (shutdown_workers unset) ≡ term_message unset i ∷ [])
      × (start table (before ++ (term_message unset i ∷ rest)) ≡ start table before)
unfolding shutdown_workers
shutdown_workers-start unset i table before rest h = (
  messages_for-term_messages unset i worker_processes_count h,
  start-append_term table before rest unset i,
)
