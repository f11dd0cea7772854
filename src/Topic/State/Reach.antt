-- ===== src/Topic/State/Reach.antt =====
-- The topics that a program can reach (zendb-storage/src/topic.rs): from `create`, by any sequence of
-- the operations of the writer and of the consumers, and by restarts.
use zendb.Prelude.{ℕ, ◌<◌, ◌^◌, ◌≡◌, Option, some, List, ◌++◌, Ord, ok, length, take, ◌⊎◌}
use zendb.Map.{lookup}
use zendb.Topic.Frame.{frame}
use zendb.Topic.State.{Topic, TopicConfig, ConsumerState, create, compact, append}
use zendb.Topic.State.Open.{open_topic}
use zendb.Topic.State.Open.Recovery.{files_of}
use zendb.Topic.State.Retention.{Log}
use zendb.Topic.State.Reader.{
  TopicConsumer, consumer, commit, seek, reset, delete, drop_consumer, update_state, next,
}
use zendb.Topic.State.Sync.{InSync}

-- What holds in every reachable topic.
abbrev pub IsValid : {N : Type 0} ⦃o : Ord N⦄ → Topic N → Type 0
IsValid t = InSync t × ((first : ℕ) × (log : List (List ℕ)) × Log t first log)

module _ {N : Type 0} ⦃o : Ord N⦄ {V : Type 0} (decode : List ℕ → Option V) where
  -- One call. A handle that commits is registered, as every handle is until it is deleted.
  pub data Step : Topic N → Topic N → Type 0 where
    appended : (t : Topic N) (p : List ℕ) → length p < 2 ^ 32 → Step t (append t p).0
    compacted : (t : Topic N) → Step t (compact t)
    opened : (t : Topic N) (n : N) → Step t (consumer t n).0
    committed :
        (t : Topic N) (h : TopicConsumer N) (c : ConsumerState)
        → lookup h.name t.consumers ≡ some c
        → Step t (commit t h)
    sought : (t : Topic N) (h : TopicConsumer N) (offset : ℕ) → Step t (seek t h offset).0
    rewound : (t : Topic N) (h : TopicConsumer N) → Step t (reset t h).0
    deleted : (t : Topic N) (h : TopicConsumer N) → Step t (delete t h)
    dropped : (t : Topic N) (h : TopicConsumer N) → Step t (drop_consumer t h)
    advanced : (t : Topic N) (h : TopicConsumer N) → Step t (next decode t h).0.0
    -- The process stops in an append, with the first `n` bytes of a record in the active file, and the
    -- topic is opened again; `n` is 0 where it stops between two calls.
    reopened :
        (t u : Topic N) (config : TopicConfig) (p : List ℕ) (n : ℕ)
        → length p < 2 ^ 32
        → n < length (frame p)
        → open_topic config t.offsets
            (files_of t.older)
            (t.active.base_offset, t.active.file ++ take n (frame p))
          ≡ ok u
        → Step t u

  pub data Reach : Topic N → Type 0 where
    created : (config : TopicConfig) → Reach (create config)
    stepped : (t u : Topic N) → Reach t → Step t u → Reach u

  -- `u` is `t`, or `t` with a new volatile offset of the handle.
  abbrev IsAdvanced : Topic N → TopicConsumer N → Topic N → Type 0
  IsAdvanced t h u =
      (u ≡ t) ⊎ ((offset : ℕ) × (u ≡ update_state t h.name (λ c. record c { volatile = offset })))
